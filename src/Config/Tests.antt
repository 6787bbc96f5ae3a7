-- ===== src/Config/Tests.antt =====
-- Runs of the configuration file at concrete inputs.
use reactor_server.Prelude.{List, [], ◌∷◌, Option, some}
use reactor_server.Prelude.Bytes.{Bytes, codes}
use reactor_server.Config.{ConfigFile}
use reactor_server.Config.Lines.{Entry}
use reactor_server.Config.Entries.{file_of}

abbrev port : Entry
port = record {
  lead = [];
  key = codes "p";
  gap = codes " ";
  space = codes " ";
  value = codes "80";
  tail = codes " ";
}

-- Without a blank at its end.
abbrev root : Entry
root = record {
  lead = [];
  key = codes "r";
  gap = codes " ";
  space = [];
  value = codes "w";
  tail = [];
}

abbrev entries : List Entry
entries = port ∷ root ∷ []

-- Every path names the file.
abbrev files : Bytes → Option Bytes
files path = some (file_of entries)

abbrev no_conf : ConfigFile
no_conf = record { conf_map = [] }
