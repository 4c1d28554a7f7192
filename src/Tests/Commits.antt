-- ===== src/Tests/Commits.antt =====
-- Blobs and folds on the commits of one login vault.
use heyl.Prelude.{
  ◌≡◌, refl, sym, ap, String, none, some, List, [], ◌∷◌, ◌++◌, inl, inr, TextLe, Bool-cases, ◌==◌,
  arith,
}
use heyl.Prelude.Results.{ok}
use heyl.Json.Sample.{Tree, Fields, obj, text, field, end, sample}
use heyl.Vault.Document.{Document, snappy, encode, decode, envelope, Bytes}
use heyl.Vault.Document.RoundTrip.{decode-encode}
use heyl.Vault.Merge.{
  fold, fold_content, merge_content, merge_name, merge_list, merge_elements, merge_element,
  update_time,
}
use heyl.Vault.Merge.Elements.{element_at, last_write, HasObjects, AllObjects, fold-last_write}
use heyl.Vault.Merge.Newest.{fold-keeps}
use heyl.Vault.Merge.Snapshot.{fold-snapshot}
use heyl.Tests.Samples.{ash_text, noon_text, later_text, one_element, codec, codec-IsLawful}

abbrev commit : Fields → Document sample
commit content = record { format = snappy; document_type = "login"; version = 2; content = content }

abbrev first_commit : Document sample
first_commit = commit (one_element ash_text "bank" noon_text)

abbrev second_commit : Document sample
second_commit = commit (one_element ash_text "bank account" later_text)

-- A stale edit of the same login arrives last.
abbrev third_commit : Document sample
third_commit = commit (one_element ash_text "bonk" noon_text)

one_element-HasObjects : (id name time : String) → HasObjects sample (one_element id name time)
one_element-HasObjects id name time list l e = elim (Bool-cases ("logins" == list)) [
  | inl n ↦ (_, ap sample.as_object (sym (some_inj (rw n at e))))
  | inr n ↦ let absurd = (rw n at e) in ground arith
]
  where
    some_inj : {a b : Tree} → some a ≡ some b → a ≡ b
    some_inj h = cc

abbrev history : List (Document sample)
history = first_commit ∷ second_commit ∷ third_commit ∷ []

-- The stale edit loses.
folded_history : fold sample history ≡ ok second_commit
unfolding fold fold_content merge_content merge_name merge_list merge_elements merge_element
    update_time
folded_history = refl

history-AllObjects : AllObjects sample history
history-AllObjects = (
  one_element-HasObjects ash_text "bank" noon_text,
  (
    one_element-HasObjects ash_text "bank account" later_text,
    (one_element-HasObjects ash_text "bonk" noon_text, tt),
  ),
)

abbrev later_element : Tree
later_element = obj (field "title" (text "bank account") (field "updateTime" (text later_text) end))

found_element : element_at sample second_commit.content "logins" ash_text ≡ some later_element
unfolding element_at
found_element = refl

fold-last_write_example :
    element_at sample second_commit.content "logins" ash_text
    ≡ last_write sample "logins" ash_text none history
fold-last_write_example =
    fold-last_write sample history second_commit "logins" ash_text history-AllObjects folded_history

fold-keeps_example :
    (f : Tree) × (element_at sample second_commit.content "logins" ash_text ≡ some f)
    × TextLe (update_time sample later_element) (update_time sample f)
fold-keeps_example =
    fold-keeps sample history second_commit second_commit "logins" ash_text later_element
      history-AllObjects folded_history (inr (inl refl)) found_element

abbrev stale : List (Document sample)
stale = third_commit ∷ []

refolded : fold sample (history ++ second_commit ∷ []) ≡ ok second_commit
unfolding fold fold_content merge_content merge_name merge_list merge_elements merge_element
    update_time
refolded = refl

fold-snapshot_example :
    element_at sample second_commit.content "logins" ash_text
    ≡ element_at sample second_commit.content "logins" ash_text
fold-snapshot_example =
    fold-snapshot sample history second_commit second_commit "logins" ash_text history-AllObjects
      folded_history refolded

compacted : fold sample (second_commit ∷ stale) ≡ ok second_commit
unfolding fold fold_content merge_content merge_name merge_list merge_elements merge_element
    update_time
compacted = refl

extended : fold sample (history ++ stale) ≡ ok second_commit
unfolding fold fold_content merge_content merge_name merge_list merge_elements merge_element
    update_time
extended = refl

abbrev blob : Bytes
blob = 0x01 ∷ 7 ∷ 0x7b ∷ 0x7d ∷ []

encoded : encode sample codec first_commit ≡ ok blob
unfolding encode
encoded = refl

decode-encode_example : decode sample codec blob ≡ ok first_commit
unfolding envelope
decode-encode_example =
    decode-encode sample codec first_commit blob codec-IsLawful (λ p w. refl) encoded

decoded : decode sample codec blob ≡ ok first_commit
unfolding decode
decoded = refl
