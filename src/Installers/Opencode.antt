-- ===== src/Installers/Opencode.antt =====
-- installers/opencode.py: the bridge plugin and the entries of opencode.json or opencode.jsonc.
use pabel.Base.{ℕ, zero, suc, Bool, true, false, not, ◌&&◌, ◌||◌, Option, none, some, List, [], ◌∷◌}
use pabel.Base.{Text, codes, text_eq, is_empty, nat_beq, occurs, strip, if◌then◌else◌}
use pabel.Base.Exec.{Result, ok, err, pure, lift, gets, ◌>>=◌, ◌>>◌}
use pabel.Json.{Json, null, bool, num, str, arr, obj, nil, cons, end, field, find}
use pabel.Json.Dumps.{dumps}
use pabel.Failure.{Failure}
use pabel.Installers.Disk.{
  FilePath, below, Machine, Disk, file_at, exists, unlink, write_text, write_json, or_value_error,
  replace_text,
}
use pabel.Installers.Setting.{set_in, mcp_server_command}
use pabel.Installers.CodexFamily.{is_in, delete, get_dict, put_dict, without_field, set_value}

-- what `_JSONC_COMMENT` matches behind its first character: nothing yet, a string, a line comment
-- or a block comment
pub data Mode : Type 0 where
  in_code in_string in_line in_block : Mode

abbrev head_is : ℕ → Text → Bool
head_is c [] = false
head_is c (d ∷ s) = nat_beq d c

-- whether a string that begins here is closed; `\` takes the character behind it along
closes : Bool → Text → Bool
closes escaped [] = false
closes true (c ∷ s) = closes false s
closes false (c ∷ s) =
    let after_escape = closes true s in
    let later = closes false s in
    if nat_beq c b'"' then true else if nat_beq c b'\\' then after_escape else later

-- whether a block comment that begins here is closed
closes_block : Text → Bool
closes_block [] = false
closes_block (c ∷ s) = (nat_beq c b'*' && head_is b'/' s) || closes_block s

abbrev behind_first : Text → Text
behind_first [] = []
behind_first (c ∷ s) = s

-- `_JSONC_COMMENT.sub(...)`: strings stay, comments go. The second argument counts the characters
-- that belong to what was just read.
strip_from : Mode → ℕ → Text → Text
strip_from m n [] = []
strip_from in_block (suc n) (c ∷ s) = strip_from in_block n s
strip_from in_code (suc n) (c ∷ s) = strip_from in_code n s
strip_from in_line (suc n) (c ∷ s) = strip_from in_line n s
strip_from in_string (suc n) (c ∷ s) = c ∷ strip_from in_string n s
strip_from in_code zero (c ∷ s) =
    let string = c ∷ strip_from in_string 0 s in
    let line = strip_from in_line 1 s in
    let block = strip_from in_block 1 s in
    let plain = c ∷ strip_from in_code 0 s in
    if nat_beq c b'"' && closes false s
    then string
    else if nat_beq c b'/' && head_is b'/' s
    then line
    else if nat_beq c b'/' && (head_is b'*' s && closes_block (behind_first s))
    then block
    else plain
strip_from in_string zero (c ∷ s) =
    let closed = c ∷ strip_from in_code 0 s in
    let escape = c ∷ strip_from in_string 1 s in
    let inside = c ∷ strip_from in_string 0 s in
    if nat_beq c b'"' then closed else if nat_beq c b'\\' then escape else inside
strip_from in_line zero (c ∷ s) =
    let ended = c ∷ strip_from in_code 0 s in
    let inside = strip_from in_line 0 s in if nat_beq c 10 then ended else inside
strip_from in_block zero (c ∷ s) =
    let ended = strip_from in_code 1 s in
    let inside = strip_from in_block 0 s in
    if nat_beq c b'*' && head_is b'/' s then ended else inside

unfoldable pub strip_comments : Text → Text
unfolding strip_from closes closes_block
strip_comments s = strip_from in_code 0 s

abbrev connector_server_name : Text
connector_server_name = codes "pabel-connector"

abbrev deployed_server_name : Text
deployed_server_name = codes "pabel"

abbrev kept_if : Bool → Text → List Text → List Text
kept_if true n ns = n ∷ ns
kept_if false n ns = ns

-- the entries of `names` that `servers` has
unfoldable pub present_names : List Text → Json → Result Failure (List Text)
unfolding is_in
present_names [] servers = ok []
present_names (n ∷ ns) servers = elim (is_in n servers) [
  | err e ↦ err e
  | ok here ↦ elim (present_names ns servers) [ err e ↦ err e | ok rest ↦ ok (kept_if here n rest) ]
]

unfoldable pub delete_all : List Text → Json → Result Failure Json
unfolding delete
delete_all [] servers = ok servers
delete_all (n ∷ ns) servers = elim (delete n servers) [
  | err e ↦ err e
  | ok rest ↦ delete_all ns rest
]

abbrev is_empty_dict : Json → Bool
is_empty_dict (obj end) = true
is_empty_dict (obj (field k v fs)) = false
is_empty_dict null = false
is_empty_dict (bool b) = false
is_empty_dict (num t) = false
is_empty_dict (str s) = false
is_empty_dict (arr vs) = false

module _ (M : Machine) where
  -- `_resolved_config_path`, in the directory that holds the file
  unfoldable pub resolved_in : FilePath → Disk FilePath
  unfolding exists
  resolved_in directory = do
    jsonc ← exists (below directory (codes "opencode.jsonc"))
    pure (below directory (if jsonc then codes "opencode.jsonc" else codes "opencode.json"))

  abbrev pub config_directory : FilePath → Bool → FilePath
  config_directory base_dir global_ =
      if global_ then below (below M.home (codes ".config")) (codes "opencode") else base_dir

  abbrev pub plugin_path : FilePath → Bool → FilePath
  plugin_path base_dir global_ =
      if global_
      then below (below (config_directory base_dir true) (codes "plugins")) (codes "pabel.js")
      else below (below (below base_dir (codes ".opencode")) (codes "plugins")) (codes "pabel.js")

  unfoldable pub hook_argv : Json
  hook_argv = arr (
      cons (str M.executable) (
        cons (str (codes "-m"))
          (cons (str (codes "pabel_connector.hook")) (cons (str (codes "opencode")) nil))))

  unfoldable pub render_plugin : Text
  unfolding replace_text dumps hook_argv
  render_plugin =
      replace_text (codes "__PABEL_TIMEOUT_MS__") (codes "200000") (
        replace_text (codes "__PABEL_HOOK_ARGV__") (dumps hook_argv) (M.bundled (codes "opencode")))

  -- the value, and whether there were comments
  unfoldable pub config_of : Option Text → Result Failure (Json × Bool)
  unfolding strip_comments text_eq
  config_of none = ok (obj end, false)
  config_of (some t) =
      let stripped = strip_comments t in
      let value = or_value_error (M.loads stripped) in
      let had_comments = not (text_eq stripped t) in
      if is_empty (strip M.is_space stripped)
      then ok (obj end, had_comments)
      else elim value [ ok v ↦ ok (v, had_comments) | err e ↦ err e ]

  unfoldable pub read_config : FilePath → Disk (Json × Bool)
  unfolding file_at config_of
  read_config p = do t ← gets (file_at p); lift (config_of t)

  abbrev entry_of : Text → Text → Json → Json
  entry_of kind key v =
      obj (field (codes "type") (str kind) (field key v (field (codes "enabled") (bool true) end)))

  abbrev with_deployed : Option Text → Json → Result Failure Json
  with_deployed none d = ok d
  with_deployed (some url) d =
      set_in (codes "mcp") deployed_server_name
        (λ old. ok (entry_of (codes "remote") (codes "url") (str url))) d

  -- the value with the entries that `install` adds
  unfoldable pub register : Json → Result Failure Json
  unfolding set_in mcp_server_command
  register d =
      elim (set_in (codes "mcp") connector_server_name
        (λ old.
          ok (entry_of (codes "local") (codes "command") (mcp_server_command M (codes "opencode"))))
        d) [
          | ok d' ↦ with_deployed (set_value (M.environ (codes "PABEL_SERVER_URL"))) d'
          | err e ↦ err e
        ]

  unfoldable pub install : FilePath → Bool → Disk (Unit {0})
  unfolding render_plugin write_text resolved_in read_config register write_json
  install base_dir global_ = do
    write_text (plugin_path base_dir global_) (render_plugin)
    path ← resolved_in (config_directory base_dir global_)
    (d, had_comments) ← read_config path
    d' ← lift (register d)
    if had_comments then pure tt else write_json M path d'

  abbrev remove_plugin : FilePath → Bool → Disk (Unit {0})
  remove_plugin p true = unlink p
  remove_plugin p false = pure tt

  abbrev without_mcp : Json → Json → Json
  without_mcp servers (obj fs) =
      obj (if is_empty_dict servers then without_field (codes "mcp") fs else fs)
  without_mcp servers v = v

  abbrev write_rest : FilePath → Json → Disk (Unit {0})
  write_rest path d = if is_empty_dict d then unlink path else write_json M path d

  -- the entries that are there, where the file may be rewritten
  abbrev remove_names : FilePath → Json → Json → Bool → List Text → Disk (List Text)
  remove_names path d servers had_comments [] = pure []
  remove_names path d servers true (n ∷ ns) = pure []
  remove_names path d servers false (n ∷ ns) = do
    rest ← lift (delete_all (n ∷ ns) servers)
    write_rest path (without_mcp rest (put_dict (codes "mcp") rest d))
    pure (n ∷ ns)

  -- what was removed from the configuration; the plugin goes in any case
  unfoldable pub uninstall : FilePath → Bool → Disk (List Text)
  unfolding exists unlink resolved_in read_config present_names delete_all write_json without_field
      find
  uninstall base_dir global_ = do
    here ← exists (plugin_path base_dir global_)
    remove_plugin (plugin_path base_dir global_) here
    path ← resolved_in (config_directory base_dir global_)
    (d, had_comments) ← read_config path
    servers ← lift (get_dict (codes "mcp") d)
    names ← lift (present_names (connector_server_name ∷ deployed_server_name ∷ []) servers)
    remove_names path d servers had_comments names

  abbrev is_foreign : Option Text → Bool
  is_foreign none = true
  is_foreign (some t) = not (occurs (dumps (hook_argv)) t)

  -- whether `hook_wiring_problem` reports one
  unfoldable pub hook_wiring_problem : FilePath → Bool → Disk Bool
  unfolding file_at dumps hook_argv occurs
  hook_wiring_problem base_dir global_ =
      gets (λ fs. is_foreign (file_at (plugin_path base_dir global_) fs))
