-- ===== src/Tests/Sessions.antt =====
-- Runs of a session's life: created, waited for, listed and removed.
use heyl.Prelude.{
  ◌≡◌, ◌≢◌, refl, String, true, false, Option, none, some, if◌then◌else◌, inl, arith,
}
use heyl.Prelude.Results.{ok}
use heyl.Domain.Session.{SessionPolicy}
use heyl.App.Slots.{
  access_token, session_private_key, slot_index, session_id, SecretKey, default_slot, in_slot, Slot,
  slot_name, slot_key,
}
use heyl.App.Ports.{Ports, hidden}
use heyl.App.Action.{World, ◌>>=◌, when_ok, when_some, when}
use heyl.App.Session.{
  slots, exists, contains, index_add, index_remove, read_index, parse_index, texts, names_or_empty,
  write_index,
}
use heyl.App.Session.Index.Unique.{IsUnique, index_add-IsUnique}
use heyl.App.Session.Create.{create, create_session}
use heyl.App.Session.Create.Complete.{IsComplete, create-IsComplete}
use heyl.App.Session.Wait.{unlock_and_wait}
use heyl.App.Session.Wait.Bounds.{unlock_and_wait_ends}
use heyl.App.Session.Remove.{Removed, remove}
use heyl.App.Session.Remove.Forgets.{remove-forgets}
use heyl.App.Session.Remove.Force.{remove_force}
use heyl.Domain.Keys.{session_encryption_key, derive}
use heyl.Domain.Login.{sign_challenge}
use heyl.Json.Sample.{sample}
use heyl.Tests.Host.{
  memory, memory-IsKeychain, memory-DeletesItems, same, same_account, number, host, host-ReadsTexts,
}
use heyl.Tests.Samples.{ash_text, tag_discrete, tags, noon}
use heyl.Tests.Keys.{clear}

abbrev work : Slot
work = record { name = some "work" }

abbrev empty : World host
empty = ((λ k. none), none)

-- The slot `work`, with its three items, in the index.
abbrev paired : SecretKey → Option String
paired k =
    if same k (in_slot "work" access_token)
    then some "token"
    else if same k (in_slot "work" session_private_key)
    then some "AAAA"
    else if same k (in_slot "work" session_id)
    then some ash_text
    else if same k (default_slot slot_index)
    then some "[work]"
    else none

abbrev working : World host
working = (paired, none)

abbrev policy : SessionPolicy
policy = record { timeout_minutes = 480; strict = false; auto_extend = false }

quiet : String → Option String → Option String
quiet url w = w

create-IsComplete_example :
    IsComplete memory work (create host work none policy true hidden quiet empty).0.0
create-IsComplete_example =
    create-IsComplete host memory-IsKeychain work none policy true hidden quiet empty
      (inl (_, refl))

-- The registration fails, with the three items stored.
created :
    memory.get
      (create host work none policy true hidden quiet empty).0.0
      (slot_key work access_token)
    ≡ ok "fresh"
unfolding create create_session ◌>>=◌ when session_encryption_key sign_challenge tag_discrete derive
    same same_account slot_key number
created = refl

unlock_and_wait_ends_example : (unlock_and_wait host 3 work (some 2) working).1 ≢ ok none
unlock_and_wait_ends_example = unlock_and_wait_ends host 3 work 2 working (omega arith)

unlisted : contains (slots host empty) (slot_name work) ≡ false
unfolding contains slots read_index slot_name
unlisted = refl

added : (index_add host work empty).1 ≡ ok tt
unfolding index_add contains slots read_index write_index ◌>>=◌ when
added = refl

index_add-IsUnique_example : IsUnique (slots host (index_add host work empty).0)
unfolding slots read_index
index_add-IsUnique_example =
    index_add-IsUnique host host-ReadsTexts memory-IsKeychain work empty tt added

removed_again : (index_remove host work (index_add host work empty).0).1 ≡ ok tt
unfolding index_remove index_add contains slots read_index write_index parse_index texts
    names_or_empty same same_account number ◌>>=◌ when
removed_again = refl

forced : (remove host work true working).1 ≡ ok (record { tombstoned = false; deleted = true })
unfolding remove ◌>>=◌ when_ok same same_account slot_key number when_some when
forced = refl

remove-forgets_example :
    (exists host work (remove host work true working).0 ≡ false)
    × (contains (slots host (remove host work true working).0) (slot_name work) ≡ false)
remove-forgets_example =
    remove-forgets host host-ReadsTexts memory-IsKeychain memory-DeletesItems work true working
      (record { tombstoned = false; deleted = true }) forced

-- A host that writes every index.
abbrev writer : Ports tags noon clear sample
writer = record host { text = record { from_str = λ s. none; to_string = λ v. some "[]" } }

remove_force_example : (removed : Removed) × ((remove writer work true working).1 ≡ ok removed)
remove_force_example =
    remove_force writer (λ s k. refl) (λ s json. refl) (λ names. ("[]", refl)) work working
