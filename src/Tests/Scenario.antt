-- ===== src/Tests/Scenario.antt =====
-- Runs of a scenario's state on a disk with one file, and of the port over a raw API that keeps a log.
use heyl.Prelude.{ℕ, ◌≡◌, ◌≢◌, refl, ap, sym, arith, Option, none, some, List, [], ◌∷◌, eq_iff}
use heyl.Prelude.Results.{ok, err, ok_inj}
use heyl.App.Error.{not_found}
use heyl.App.Slots.{SecretKey, access_token, default_slot, in_slot, secret_name, service}
use heyl.Platform.Scenario.{
  Saved, Disk, IsDisk, scenario, fill, drawn, save, read_state, slot_of, or_no_state, parsed,
  fill_bytes,
}
use heyl.Platform.Scenario.Saving.{items-IsKept}
use heyl.Platform.Scenario.Draws.{write_item, draw, draws_of, after, run, run-draw, copies}

abbrev one_file : Disk
one_file = record {
  Files = Option Saved;
  Text = Saved;
  read_to_string = λ file. file;
  create_dir_all = λ file. (file, ok tt);
  write_file = λ text file. (some text, ok tt);
  restrict = λ file. file;
  from_str = some;
  to_string_pretty = ok;
}

one_file-IsDisk : IsDisk one_file
one_file-IsDisk = record {
  read-write = λ text files done. refl;
  read-restrict = λ files. refl;
  parse-print = λ s text printed. (s, ap some (sym (ok_inj printed)), refl, λ key. refl);
}

abbrev token : SecretKey
token = default_slot access_token

abbrev other_token : SecretKey
other_token = in_slot "work" access_token

slots_apart : slot_of other_token ≢ slot_of token
unfolding slot_of service secret_name
slots_apart e = ground (arith, (eq_iff (slot_of other_token) (slot_of token)).1 e)

set_ok : ((scenario one_file).set none token "t").1 ≡ ok tt
unfolding save
set_ok = refl

delete_ok : ((scenario one_file).delete none token).1 ≡ ok tt
unfolding save
delete_ok = refl

-- An item is set, or deleted, where there is no file.
items-IsKept_example :
    let S = scenario one_file in
    (S.get (S.set none token "t").0 token ≡ ok "t")
    × (S.get (S.set none token "t").0 other_token ≡ S.get none other_token)
    × (S.get (S.delete none token).0 token ≡ err (not_found (secret_name access_token)))
    × (S.get (S.delete none token).0 other_token ≡ S.get none other_token)
items-IsKept_example =
    items-IsKept one_file one_file-IsDisk none token other_token "t" slots_apart set_ok delete_ok

abbrev os_bytes : ℕ → Option Saved → Option Saved × List ℕ
os_bytes len file = (file, [])

abbrev seed : List ℕ
seed = 9 ∷ []

abbrev drawn_twice : Option Saved
drawn_twice = some (record { secrets = ("heyl/access_token", "t") ∷ []; draws = 2 })

ran :
    run one_file os_bytes seed (draw 32 ∷ write_item token "t" ∷ draw 24 ∷ []) none
    ≡ some drawn_twice
unfolding run after fill save read_state or_no_state parsed slot_of service secret_name
ran = refl

drew : (fill one_file os_bytes (some seed) 2 drawn_twice).1 ≡ some (3 ∷ 3 ∷ [])
unfolding fill save read_state or_no_state parsed drawn fill_bytes
drew = refl

-- Two draws with an item written between them, and the third: its bytes are the count.
run-draw_example : 3 ∷ 3 ∷ [] ≡ copies 2 3
unfolding draws_of
run-draw_example =
    run-draw one_file os_bytes seed one_file-IsDisk (draw 32 ∷ write_item token "t" ∷ draw 24 ∷ [])
      none drawn_twice 2 (3 ∷ 3 ∷ []) refl ran drew
