-- ===== src/Tests/Stores.antt =====
-- State files on a host at concrete inputs.
use lara_nux.Base.{false, [], ◌∷◌, Option, none, some, ◌≡◌, ◌≢◌, refl, if◌then◌else◌}
use lara_nux.Text.{Text, codes, text_eq}
use lara_nux.Effect.Fault.{Error, ok, err, is, is_ok, plain}
use lara_nux.Machine.Calls.{
  Machine, Environment, Call, read, write, rename, remove, make_dir, change_mode, run, random,
  means_missing,
}
use lara_nux.Machine.Store.{Codec, save_state_file, load_state_file, file_content}
use lara_nux.Machine.Store.Laws.{load-save, save_all_or_nothing}
use lara_nux.Tests.Worlds.{willing}

-- A host with an earlier state.
abbrev host : Machine
host = record { files = (codes "/var/lib/sites.json", codes "#old") ∷ []; trace = [] }

abbrev refused_write : Call → Option Error
refused_write (write path payload) = some (plain (codes "no space left on device"))
refused_write call = none

refused_present : (call : Call) → means_missing (refused_write call) ≡ false
unfolding is
refused_present (write path payload) = refl
refused_present (read path) = refl
refused_present (rename from to) = refl
refused_present (remove path) = refl
refused_present (make_dir path) = refl
refused_present (change_mode path) = refl
refused_present (run command) = refl
refused_present random = refl

not_nil : (s : Text) → 35 ∷ s ≢ []
not_nil s h = cc

-- A host on which every write fails and leaves an empty file.
abbrev full_disk : Environment
full_disk = record willing {
  fault = λ t call. refused_write call;
  fault_present = λ t call. refused_present call;
}

-- A state that is a text, encoded behind a mark.
abbrev marked_text : Codec Text
marked_text = record {
  blank = [];
  decode = λ payload. elim payload [ [] ↦ err (plain (codes "no mark")) | c ∷ rest ↦ ok rest ];
  encode = λ s. 35 ∷ s;
  decode-encode = λ s. refl;
  encode_ne_nil = λ s. not_nil s;
}

abbrev state_path : Text
state_path = codes "/var/lib/sites.json"

saved : (save_state_file willing marked_text state_path (codes "new") host).0 ≡ ok tt
unfolding save_state_file text_eq
saved = refl

loaded :
    (load_state_file willing marked_text state_path
      (save_state_file willing marked_text state_path (codes "new") host).1).0
    ≡ ok (codes "new")
unfolding save_state_file load_state_file text_eq
loaded = refl

load-save_example : codes "new" ≡ codes "new"
load-save_example =
    load-save willing marked_text state_path (codes "new") (codes "new") host saved loaded

save_all_or_nothing_example :
    file_content full_disk marked_text state_path
      (save_state_file full_disk marked_text state_path (codes "new") host).1
    ≡ (if is_ok (save_state_file full_disk marked_text state_path (codes "new") host).0
        then some (codes "new")
        else file_content full_disk marked_text state_path host)
save_all_or_nothing_example =
    save_all_or_nothing full_disk marked_text state_path (codes "new") host
