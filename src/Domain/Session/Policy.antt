-- ===== src/Domain/Session/Policy.antt =====
-- A policy written into a session record reads back, and leaves the other keys alone.
use heyl.Prelude.{
  ℕ, ◌≡◌, ◌≢◌, refl, ◌∙◌, String, Bool, true, false, Option, none, some, [], ◌∷◌, List, arith, ◌==◌,
  eq_iff, if◌then◌else◌, ◌>>=◌,
}
use heyl.Json.{Json, value_get, get-insert, get-new}
use heyl.Domain.Session.{
  SessionPolicy, HeylClientSettings, JsonText, settings_of_map, settings_map, existing_settings,
  settings_root, read_settings, or_default, from_wire, to_client_settings,
}

module _ (J : Json) where
  -- The two flags, as a record of settings.
  abbrev flags : SessionPolicy → HeylClientSettings
  flags p = record { strict = p.strict; auto_extend = p.auto_extend }

  settings_of_map-settings_map :
      (s : HeylClientSettings) → settings_of_map J (settings_map J s) ≡ some s
  unfolding settings_of_map settings_map
  settings_of_map-settings_map s = by_flags s.strict s.auto_extend
    where
      by_flags :
          (a b : Bool)
          → settings_of_map J (settings_map J (record { strict = a; auto_extend = b }))
            ≡ some (record { strict = a; auto_extend = b })
      by_flags false false = simp (get-new J)
      by_flags false true = simp (get-insert J, get-new J, J.as_bool-boolean)
      by_flags true false = simp (get-insert J, get-new J, J.as_bool-boolean)
      by_flags true true = simp (get-insert J, J.as_bool-boolean)

  -- The entries of the object that the flags make.
  abbrev flag_entries : Bool → Bool → List (String × J.Value)
  flag_entries false false = []
  flag_entries false true = ("autoExtend", J.boolean true) ∷ []
  flag_entries true false = ("strict", J.boolean true) ∷ []
  flag_entries true true = ("strict", J.boolean true) ∷ ("autoExtend", J.boolean true) ∷ []

  entries-settings_map :
      (a b : Bool)
      → J.entries (settings_map J (record { strict = a; auto_extend = b })) ≡ flag_entries a b
  unfolding settings_map
  entries-settings_map false false = J.entries-new
  entries-settings_map false true = simp (J.entries-insert, J.entries-new)
  entries-settings_map true false = simp (J.entries-insert, J.entries-new)
  entries-settings_map true true = simp (J.entries-insert, J.entries-new)

module _ (J : Json) (X : JsonText J) where
  -- What our key holds after a write: the flags that are set, or nothing.
  abbrev pub ours_written : Bool → Bool → Option J.Value
  ours_written false false = none
  ours_written a b = some (J.object (settings_map J (record { strict = a; auto_extend = b })))

  get-settings_root :
      (p : SessionPolicy) (existing k : String)
      → J.get (settings_root J X p existing) k ≡ (
          if "heyl" == k
          then ours_written p.strict p.auto_extend
          else J.get (existing_settings J X existing) k)
  unfolding settings_root
  get-settings_root p existing k = by_flags p.strict p.auto_extend
    where
      by_flags :
          (a b : Bool)
          → J.get (settings_root J X (record p { strict = a; auto_extend = b }) existing) k
            ≡ (if "heyl" == k then ours_written a b else J.get (existing_settings J X existing) k)
      by_flags false false =
          rw (entries-settings_map J false false, settings_root) (J.get-remove _ "heyl" k)
      by_flags false true =
          rw (entries-settings_map J false true, settings_root) (get-insert J _ "heyl" k _)
      by_flags true false =
          rw (entries-settings_map J true false, settings_root) (get-insert J _ "heyl" k _)
      by_flags true true =
          rw (entries-settings_map J true true, settings_root) (get-insert J _ "heyl" k _)

  -- Writing a policy touches no key of the settings but ours, and ours is gone where no flag is set.
  settings_root_keys :
      (p : SessionPolicy) (existing : String)
      → ((k : String)
          → k ≢ "heyl"
          → J.get (settings_root J X p existing) k ≡ J.get (existing_settings J X existing) k)
        × (p.strict ≡ false
            → p.auto_extend ≡ false
            → J.get (settings_root J X p existing) "heyl" ≡ none)
  settings_root_keys p existing = (
    λ k h. get-settings_root p existing k ∙ ground (arith, eq_iff "heyl" k),
    λ a b. get-settings_root p existing "heyl" ∙ rw (a, b),
  )

  module _ (from_seq : J.Value → Option HeylClientSettings) where
    settings_read :
        (s : HeylClientSettings) → read_settings J X from_seq (J.object (settings_map J s)) ≡ some s
    unfolding read_settings
    settings_read s =
        rw (J.as_object-object (settings_map J s), read_settings) (settings_of_map-settings_map J s)

    ours_read :
        (a b : Bool)
        → or_default J (ours_written a b >>= read_settings J X from_seq)
          ≡ record { strict = a; auto_extend = b }
    unfolding or_default
    ours_read false false = refl
    ours_read false true = rw (settings_read _)
    ours_read true false = rw (settings_read _)
    ours_read true true = rw (settings_read _)

    -- A policy that was written reads back from the settings text, where `serde_json` reads back the
    -- object that it wrote.
    from_wire-to_client_settings :
        (p : SessionPolicy) (existing written : String)
        → to_client_settings J X p existing ≡ some written
        → (X.to_string (J.object (settings_root J X p existing)) ≡ some written
            → X.from_str written ≡ some (J.object (settings_root J X p existing)))
        → from_wire J X from_seq p.timeout_minutes written ≡ p
    unfolding from_wire to_client_settings
    from_wire-to_client_settings p existing written w reads_back =
        rw (reads_back w, J.as_object-object, get-settings_root p existing "heyl")
          (rw (ours_read p.strict p.auto_extend))

    -- Settings that are no JSON, and settings without our key, read as the default flags.
    from_wire_default :
        (timeout : ℕ) (settings : String)
        → (X.from_str settings >>= (λ v. value_get J v "heyl")) ≡ none
        → from_wire J X from_seq timeout settings
          ≡ record { timeout_minutes = timeout; strict = false; auto_extend = false }
    unfolding from_wire
    from_wire_default timeout settings h = rw h
