-- ===== src/Platform/Scenario/Draws.antt =====
-- crates/heyl-platform/src/test_state.rs: the draws of a scenario, over all its processes.
use heyl.Prelude.{
  refl, zero, suc, eqb, ◌&&◌, if◌then◌else◌, ℕ, ◌+◌, ◌%◌, ◌≡◌, ◌∙◌, sym, ap, arith, String, Option,
  none, some, List, [], ◌∷◌, Option-cases, inl, inr, subst,
}
use heyl.Prelude.Results.{Result, ok, err, Result-cases}
use heyl.App.Error.{PortError}
use heyl.App.Slots.{SecretKey}
use heyl.Platform.Scenario.{
  Saved, Disk, IsDisk, read_state, save, scenario, drawn, fill_bytes, fill, or_no_state, parsed,
}
use heyl.Platform.Scenario.Saving.{save-IsReadBack}

-- What a process does with the state file.
pub data Operation : Type 0 where
  write_item : SecretKey → String → Operation
  delete_item : SecretKey → Operation
  draw : (len : ℕ) → Operation

unfoldable pub draws_of : List Operation → ℕ
draws_of [] = 0
draws_of (draw len ∷ rest) = draws_of rest + 1
draws_of (_ ∷ rest) = draws_of rest

draws_of-cons :
    (o : Operation) (rest : List Operation)
    → draws_of (o ∷ rest) ≡ draws_of (o ∷ []) + draws_of rest
unfolding draws_of
draws_of-cons (write_item key value) rest = omega arith
draws_of-cons (delete_item key) rest = omega arith
draws_of-cons (draw len) rest = omega arith

-- The state that a step leaves behind where it succeeds.
abbrev or_stop : {X : Type 0} → X × Result PortError (Unit {0}) → Option X
or_stop done = elim done.1 [ ok _ ↦ some done.0 | err e ↦ none ]

-- The same for a draw, which panics where it fails.
abbrev or_panic : {X : Type 0} → X × Option (List ℕ) → Option X
or_panic done = elim done.1 [ some bytes ↦ some done.0 | none ↦ none ]

some-inj : {X : Type 0} {a b : X} → ◌≡◌ {A = Option X} (some a) (some b) → a ≡ b
some-inj h = cc

-- A byte, as often as asked.
unfoldable pub copies : (len byte : ℕ) → List ℕ
copies zero byte = []
copies (suc len) byte = byte ∷ copies len byte

module _ (disk : Disk) (os_fill : ℕ → disk.Files → disk.Files × List ℕ) (seed : List ℕ) where
  unfoldable pub after : Operation → disk.Files → Option disk.Files
  unfolding fill
  after (write_item key value) files = or_stop ((scenario disk).set files key value)
  after (delete_item key) files = or_stop ((scenario disk).delete files key)
  after (draw len) files = or_panic (fill disk os_fill (some seed) len files)

  -- The operations of all the processes, each of which succeeds.
  unfoldable pub run : List Operation → disk.Files → Option disk.Files
  unfolding after
  run [] files = some files
  run (operation ∷ rest) files = elim (after operation files) [
    | none ↦ none
    | some next ↦ run rest next
  ]

  module _ (D : IsDisk disk) where
    abbrev count : disk.Files → ℕ
    count files = (read_state disk files).draws

    no_file : (files : disk.Files) → disk.read_to_string files ≡ none → count files ≡ 0
    unfolding read_state or_no_state parsed
    no_file files missing = ap (λ text. (or_no_state (parsed disk text)).draws) missing

    saved-count :
        (s : Saved) (files next : disk.Files)
        → or_stop (save disk s files) ≡ some next
        → count next ≡ s.draws
    saved-count s files next h = elim (Result-cases (save disk s files).1) [
      | inl (_, e) ↦
          let same : (save disk s files).0 ≡ next = some-inj (rw e at h) in
          subst (λ files. count files ≡ s.draws) same (save-IsReadBack disk D s files e).0
      | inr (_, e) ↦ absurd (let g = rw e at h in cc)
    ]

    draw-count :
        (len : ℕ) (files next : disk.Files)
        → or_panic (fill disk os_fill (some seed) len files) ≡ some next
        → count next ≡ (count files + 1) % 256
    unfolding fill
    draw-count len files next h =
        let s = read_state disk files in
        let counted : Saved = record s { draws = (s.draws + 1) % 256 } in
        elim (Result-cases (save disk counted files).1) [
          | inl (_, e) ↦
              let same : (save disk counted files).0 ≡ next = some-inj (rw e at h) in
              subst (λ files. count files ≡ counted.draws) same
                (save-IsReadBack disk D counted files e).0
          | inr (_, e) ↦ absurd (let g = rw e at h in cc)
        ]

    after-count :
        (o : Operation) (files next : disk.Files)
        → after o files ≡ some next
        → count next % 256 ≡ (count files + draws_of (o ∷ [])) % 256
    unfolding after draws_of
    after-count (write_item key value) files next h = omega (arith, saved-count _ files next h)
    after-count (delete_item key) files next h = omega (arith, saved-count _ files next h)
    after-count (draw len) files next h = omega (arith, draw-count len files next h)

    run-count :
        (os : List Operation) (files next : disk.Files)
        → run os files ≡ some next
        → count next % 256 ≡ (count files + draws_of os) % 256
    unfolding run draws_of
    run-count [] files next h = ap (λ files. count files % 256) (sym (some-inj h)) ∙ omega arith
    run-count (o ∷ rest) files next h = elim (Option-cases (after o files)) [
      | inl e ↦ absurd (let g = rw (run, e) at h in cc)
      | inr (middle, e) ↦
          let tail = run-count rest middle next (rw (run, e) at h) in
          let head = after-count o files middle e in omega (arith, tail, head, draws_of-cons o rest)
    ]

    fill_bytes-copies : (b len : ℕ) → fill_bytes disk os_fill b len ≡ copies len b
    unfolding fill_bytes copies
    fill_bytes-copies b zero = refl
    fill_bytes-copies b (suc len) = ap (λ l. b ∷ l) (fill_bytes-copies b len)

    drawn-copies :
        (n len : ℕ)
        → drawn disk os_fill seed n len ≡ (if eqb n 1 && eqb len 32 then seed else copies len n)
    unfolding drawn
    drawn-copies n len =
        ap (λ l. if eqb n 1 && eqb len 32 then seed else l) (fill_bytes-copies n len)

    -- Over all the processes of a scenario with a seed that starts without a file, where the file could be
    -- written each time, the draw after `n` draws has the count n + 1, which wraps around at 256, whatever
    -- items were set and deleted between. It gives the seed where that count is 1 and 32 bytes are asked
    -- for, and else the count as each of its bytes.
    pub run-draw :
        (os : List Operation) (files next : disk.Files) (len : ℕ) (bytes : List ℕ)
        → disk.read_to_string files ≡ none
        → run os files ≡ some next
        → (fill disk os_fill (some seed) len next).1 ≡ some bytes
        → bytes ≡ (
            if eqb ((draws_of os + 1) % 256) 1 && eqb len 32
            then seed
            else copies len ((draws_of os + 1) % 256))
    unfolding fill
    run-draw os files next len bytes missing ran drew =
        let started : count files ≡ 0 = no_file files missing in
        let ended : (count next + 1) % 256 ≡ (draws_of os + 1) % 256 =
          omega (arith, run-count os files next ran, started) in
        let s = read_state disk next in
        let counted : Saved = record s { draws = (s.draws + 1) % 256 } in
        elim (Result-cases (save disk counted next).1) [
          | inl (_, e) ↦
              let gives : drawn disk os_fill seed ((count next + 1) % 256) len ≡ bytes =
                some-inj (rw (fill, e) at drew) in
              sym gives
              ∙ ap (λ n. drawn disk os_fill seed n len) ended
              ∙ drawn-copies ((draws_of os + 1) % 256) len
          | inr (_, e) ↦ absurd (let g = rw (fill, e) at drew in cc)
        ]
