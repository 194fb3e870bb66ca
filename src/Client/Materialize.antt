-- ===== src/Client/Materialize.antt =====
-- materialize.py: local copies of what was read, one directory for each agent product.
use pabel.Base.{◌&&◌, not, List, [], ◌∷◌}
use pabel.Base.{Text, text_eq, keep, if◌then◌else◌}
use pabel.Base.Exec.{pure, modify, ◌>>=◌, ◌>>◌}
use pabel.Json.{Json}
use pabel.Client.{Host, Client, CacheFile, ask}
use pabel.Client.Relay.{read_document_with_login}

-- `path.write_text`, which replaces a file of that name
unfoldable pub write_file : CacheFile → List CacheFile → List CacheFile
write_file f [] = f ∷ []
write_file f (g ∷ gs) =
    if text_eq g.agent f.agent && text_eq g.file_name f.file_name
    then f ∷ gs
    else g ∷ write_file f gs

module _ (H : Host) where
  -- the path and the result
  unfoldable pub create : Text → Text → Text → Client H (Text × Json)
  unfolding read_document_with_login write_file
  create source_path name agent_id = do
    result ← read_document_with_login H source_path name agent_id
    file_name ← ask H.fresh_name
    modify (λ w. record w {
      materialized =
          write_file (record { agent = agent_id; file_name = file_name; content = result })
            w.materialized;
    })
    pure (H.cache_path agent_id file_name, result)

  -- `shutil.rmtree(cache_dir(agent_id), ignore_errors=True)` of a directory that can be removed
  unfoldable pub purge_all : Text → Client H (Unit {0})
  purge_all agent_id =
      modify
        (λ w. record w { materialized = keep (λ f. not (text_eq f.agent agent_id)) w.materialized })
