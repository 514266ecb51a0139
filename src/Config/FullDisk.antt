-- ===== src/Config/FullDisk.antt =====
-- A host to try the configuration on, whose disk is full: only an empty file is written.
use litedroid.Base.{ℕ, ◌≡◌, refl, ap, sym, String, codes, Outcome, ok, err, List, [], ◌∷◌}
use litedroid.Action.{pure}
use litedroid.Host.{Host, JsonValue}
use litedroid.Daemon.Machine.{Machine, Doc, fields, find_field, machine, doc}
use litedroid.Config.Fields.{IsJson, IsFiles, last_of}

-- The last of a key, in the model's documents.
find_field-fields : (k : String) (l : List (String × Doc)) → find_field (fields l) k ≡ last_of k l
find_field-fields k [] = refl
find_field-fields k ((j, v) ∷ rest) = rw (find_field-fields k rest) refl

-- Every file holds one document.
abbrev pub holding : Doc → JsonValue Doc
holding metadata = record doc { from_str = λ s. ok metadata }

pub holding-IsJson : (metadata : Doc) → IsJson (holding metadata)
holding-IsJson metadata = record {
  get_object = λ l k. find_field-fields k l;
  as_str_string = λ s. refl;
  as_u64_number = λ n h. refl;
}

abbrev write_nothing : List ℕ → Machine → Outcome String (Unit {0}) × Machine
write_nothing [] m = (ok tt, m)
write_nothing (b ∷ bytes) m = (err "No space left on device", m)

abbrev pub full_machine : Host Machine
full_machine = record machine { write = λ path bytes. write_nothing bytes }

written : (s : String) (m m' : Machine) → write_nothing (codes s) m ≡ (ok tt, m') → s ≡ ""
written String.[] m m' e = refl
written (String.◌∷◌ c s) m m' e = cc

pub full_machine-IsFiles : IsFiles full_machine
unfolding pure
full_machine-IsFiles = record {
  written = λ path s m m' e. (refl, ap (λ t. (ok t, m')) (sym (written s m m' e)));
}
