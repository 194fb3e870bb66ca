-- ===== src/Cli/Shell.antt =====
-- What a command works on: the files, what the connector keeps, and the terminal.
use pabel.Base.{Option, none, some, List, [], ◌∷◌}
use pabel.Base.{Text, codes}
use pabel.Base.Exec.{Exec, Result, ok, err}
use pabel.Failure.{Failure, other_error, foreign}
use pabel.Client.{Host, World, Client}
use pabel.Installers.Disk.{Files, Disk}

pub record Shell (H : Host) : Type 0 where
  pub files : Files
  pub world : World H
  -- what is typed at `input` and at `getpass`
  pub lines : List Text
  pub secrets : List Text

abbrev pub Command : Host → Type 0 → Type 0
Command H A = Exec (Shell H) Failure A

abbrev pub on_disk : {H : Host} {A : Type 0} → Disk A → Command H A
on_disk m s = let (r, files) = m s.files in (r, record s { files = files })

abbrev pub in_client : {H : Host} {A : Type 0} → Client H A → Command H A
in_client m s = let (r, world) = m s.world in (r, record s { world = world })

-- an attribute that a module may lack
abbrev pub attribute : {A : Type 0} → Option A → Result Failure A
attribute none = err (other_error (foreign (codes "AttributeError")))
attribute (some a) = ok a

abbrev pub end_of_file : Failure
end_of_file = other_error (foreign (codes "EOFError"))

abbrev pub line_of : {H : Host} → Shell H → List Text → Result Failure Text × Shell H
line_of s [] = (err end_of_file, s)
line_of s (t ∷ ts) = (ok t, record s { lines = ts })

abbrev pub secret_of : {H : Host} → Shell H → List Text → Result Failure Text × Shell H
secret_of s [] = (err end_of_file, s)
secret_of s (t ∷ ts) = (ok t, record s { secrets = ts })

-- `input(...)` and `getpass.getpass(...)`
abbrev pub input : {H : Host} → Command H Text
input s = line_of s s.lines

abbrev pub getpass : {H : Host} → Command H Text
getpass s = secret_of s s.secrets
