-- ===== src/Cli/Output/Documents.antt =====
-- crates/heyl-cli/src/output.rs: the document of a login has what the login has.
use heyl.Prelude.{String, Option, none, some, List, [], ◌∷◌, ◌==◌, if◌then◌else◌}
use heyl.Json.{Json}

module _ (J : Json) where
  or_keep : Option J.Value → Option J.Value → Option J.Value
  or_keep none d = d
  or_keep (some v) d = some v

  -- The last member with the key that is there.
  latest : String → List (String × Option J.Value) → Option J.Value → Option J.Value
  unfolding or_keep
  latest key [] found = found
  latest key ((k, v) ∷ members) found =
      latest key members (if k == key then or_keep v found else found)
