-- ===== src/Cli/Output/Printing.antt =====
-- crates/heyl-cli/src/output.rs: a document that is printed alone.
use heyl.Prelude.{◌≡◌, ap, String, true, List, [], ◌∷◌}
use heyl.Prelude.Results.{ok}
use heyl.Json.{Json}
use heyl.Cli.Output.{
  Format, prose, compact, pretty, Printed, out_line, Rendering, is_json, render, printed, emit,
  document_or,
}
use heyl.Cli.Output.Shapes.{Shape}

module _ (J : Json) (R : Rendering J) where
  -- The document in the format's rendering, on a line of standard output, and nothing beside it.
  abbrev pub IsLine : Format → J.Value → List Printed → Type 0
  IsLine prose document lines = ⊥
  IsLine compact document lines =
      (text : String) × (R.to_string document ≡ ok text) × (lines ≡ out_line text ∷ [])
  IsLine pretty document lines =
      (text : String) × (R.to_string_pretty document ≡ ok text) × (lines ≡ out_line text ∷ [])

  -- The lines are one document, which is as it has to be.
  abbrev pub IsPrinted : Format → Shape J → List Printed → Type 0
  IsPrinted format Fits lines = (document : J.Value) × Fits document × IsLine format document lines

  -- No document fails to render.
  abbrev pub Renders : Type 0
  Renders =
      (document : J.Value)
      → ((text : String) × (R.to_string document ≡ ok text))
        × ((text : String) × (R.to_string_pretty document ≡ ok text))

  pub emit-IsLine :
      (format : Format) (document : J.Value)
      → is_json format ≡ true
      → Renders
      → IsLine format document (emit J R format document)
  unfolding emit printed render is_json
  emit-IsLine prose document json renders = cc
  emit-IsLine compact document json renders =
      let (text, e) = (renders document).0 in (text, e, ap (printed J R) e)
  emit-IsLine pretty document json renders =
      let (text, e) = (renders document).1 in (text, e, ap (printed J R) e)

  pub document_or-IsPrinted :
      (format : Format) (Fits : Shape J) (document : J.Value) (lines : List Printed)
      → is_json format ≡ true
      → Renders
      → Fits document
      → IsPrinted format Fits (document_or J R format document lines)
  unfolding document_or
  document_or-IsPrinted format Fits document lines json renders fits =
      (document, fits, rw json (emit-IsLine format document json renders))
