-- ===== src/Tests/Unlock.antt =====
-- Runs of an unlock whose token the backend wants renewed.
use heyl.Prelude.{◌≡◌, ◌≢◌, refl, String, Option, none, some, if◌then◌else◌}
use heyl.Prelude.Results.{ok}
use heyl.App.Slots.{access_token, session_private_key, SecretKey, default_slot, in_slot}
use heyl.App.Unlock.{run_in, run_for, decode_key}
use heyl.App.Unlock.Tokens.{run_in_other, run_for-refresh}
use heyl.Tests.Host.{memory, memory-IsKeychain, same, same_account, number, due_account, host}

abbrev pub stored : SecretKey → Option String
stored k =
    if same k (in_slot "work" access_token)
    then some "old"
    else if same k (in_slot "work" session_private_key)
    then some "AAAA"
    else none

decoded : decode_key host "AAAA" ≡ ok tt
unfolding decode_key
decoded = refl

old_token : memory.get stored (in_slot "work" access_token) ≡ ok "old"
unfolding same same_account number
old_token = refl

private_key : memory.get stored (in_slot "work" session_private_key) ≡ ok "AAAA"
unfolding same same_account number
private_key = refl

run_for-refresh_example :
    (memory.get
        (run_for host (record { name = some "work" }) (stored, none)).0.0
        (default_slot access_token)
      ≡ ok "new")
    × (memory.get
          (run_for host (record { name = some "work" }) (stored, none)).0.0
          (in_slot "work" access_token)
        ≡ ok "old")
run_for-refresh_example =
    run_for-refresh host memory-IsKeychain "work" (stored, none) "old" "AAAA" "new" tt due_account
      old_token private_key decoded refl refl refl refl

other_key : in_slot "work" access_token ≢ default_slot access_token
other_key e = cc

run_in_other_example :
    memory.get
      (run_in host (in_slot "work") (in_slot "work") (stored, none)).0.0
      (in_slot "work" access_token)
    ≡ memory.get stored (in_slot "work" access_token)
run_in_other_example =
    run_in_other host memory-IsKeychain (in_slot "work") (in_slot "work")
      (in_slot "work" access_token) (stored, none) other_key
