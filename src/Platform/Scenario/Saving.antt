-- ===== src/Platform/Scenario/Saving.antt =====
-- crates/heyl-platform/src/test_state.rs: the items that outlive a process.
use heyl.Prelude.{
  ◌≡◌, ◌≢◌, refl, sym, String, false, lookup, lookup-upsert, lookup-without, eq_iff, eq_refl, ◌==◌,
  Bool-cases, inl, inr,
}
use heyl.Prelude.Results.{ok, err, Result-cases}
use heyl.App.Error.{not_found}
use heyl.App.Slots.{SecretKey, secret_name}
use heyl.Platform.Scenario.{
  Saved, Disk, IsDisk, slot_of, read_state, save, scenario, or_no_state, parsed, failed,
}

differ : (s t : String) → t ≢ s → s == t ≡ false
differ s t other = elim (Bool-cases (s == t)) [
  | inl e ↦ absurd (other (sym ((eq_iff s t).0 e)))
  | inr e ↦ e
]

module _ (disk : Disk) (D : IsDisk disk) where
  -- What a saved state reads back as.
  abbrev pub IsReadBack : Saved → disk.Files → Type 0
  IsReadBack s files =
      ((read_state disk files).draws ≡ s.draws)
      × ((key : String) → lookup key (read_state disk files).secrets ≡ lookup key s.secrets)

  written-IsReadBack :
      (s : Saved) (files : disk.Files) (text : disk.Text)
      → disk.to_string_pretty s ≡ ok text
      → (disk.write_file text files).1 ≡ ok tt
      → IsReadBack s (disk.restrict (disk.write_file text files).0)
  unfolding read_state or_no_state parsed
  written-IsReadBack s files text printed done =
      let (t, parses, draws, items) = D.parse-print s text printed in
      rw (D.read-restrict (disk.write_file text files).0, D.read-write text files done, parses)
        (draws, items)

  pub save-IsReadBack :
      (s : Saved) (files : disk.Files)
      → (save disk s files).1 ≡ ok tt
      → IsReadBack s (save disk s files).0
  unfolding save failed
  save-IsReadBack s files h = elim (Result-cases (disk.create_dir_all files).1) [
    | inr (e, d) ↦ absurd (let g = rw (save, d) at h in cc)
    | inl (_, d) ↦ elim (Result-cases (disk.to_string_pretty s)) [
      | inr (e, p) ↦ absurd (let g = rw (save, d, p) at h in cc)
      | inl (text, p) ↦ elim (Result-cases (disk.write_file text (disk.create_dir_all files).0).1) [
        | inr (e, w) ↦ absurd (let g = rw (save, d, p, w) at h in cc)
        | inl (_, w) ↦ rw (save, d, p, w) (written-IsReadBack s _ text p w)
      ]
    ]
  ]

  -- Where the state could be written, an item that was set is got, one that was deleted is not there,
  -- and the item of another slot is as it was, in both cases.
  pub items-IsKept :
      (files : disk.Files) (key j : SecretKey) (value : String)
      → slot_of j ≢ slot_of key
      → ((scenario disk).set files key value).1 ≡ ok tt
      → ((scenario disk).delete files key).1 ≡ ok tt
      → let S = scenario disk in
        (S.get (S.set files key value).0 key ≡ ok value)
        × (S.get (S.set files key value).0 j ≡ S.get files j)
        × (S.get (S.delete files key).0 key ≡ err (not_found (secret_name key.secret)))
        × (S.get (S.delete files key).0 j ≡ S.get files j)
  items-IsKept files key j value other set deleted =
      let secrets = (read_state disk files).secrets in
      let written = save-IsReadBack _ files set in
      let erased = save-IsReadBack _ files deleted in
      let apart = differ (slot_of key) (slot_of j) other in
      (
        rw
            (
              written.1 (slot_of key),
              lookup-upsert (slot_of key) (slot_of key) value secrets,
              eq_refl (slot_of key),
            )
            refl,
        rw (written.1 (slot_of j), lookup-upsert (slot_of key) (slot_of j) value secrets, apart)
            refl,
        rw
            (
              erased.1 (slot_of key),
              lookup-without (slot_of key) (slot_of key) secrets,
              eq_refl (slot_of key),
            )
            refl,
        rw (erased.1 (slot_of j), lookup-without (slot_of key) (slot_of j) secrets, apart) refl,
      )
