-- ===== src/Ai/Providers/Mock.antt =====
-- What the mock answers passes the checks of the handler.
use walletops.Prelude.{
  ◌≡◌, refl, String, true, false, none, List, ◌∷◌, length, leb, inl, inr, Bool-cases,
}
use Prim.Native.String.{◌++◌ as str_append}
use walletops.Text.{is_empty, is_empty-append}
use mathlib.Core.List.Perm
use walletops.Ai.Schema.{validate_summary, same_ids}
use walletops.Ai.Ids.Same.{same_ids-Perm}
use walletops.Ai.Providers.{mock_summarize}

titled : (s : String) → is_empty (str_append "Ops summary for " s) ≡ false
titled s = is_empty-append "Ops summary for " s refl

-- For any ids but none at all, the summary of the mock is valid and is about these ids.
pub mock_summarize-valid :
    (prompt id : String) (ids : List String)
    → (validate_summary (mock_summarize prompt (id ∷ ids)) ≡ none)
      × (same_ids (mock_summarize prompt (id ∷ ids)).event_ids (id ∷ ids) ≡ true)
unfolding mock_summarize validate_summary
mock_summarize-valid prompt id ids = (
  elim (Bool-cases (leb 8 (length (id ∷ ids)))) [
    | inl e ↦ rw (e, titled _) refl
    | inr e ↦ elim (Bool-cases (leb 3 (length (id ∷ ids)))) [
      | inl f ↦ rw (e, f, titled _) refl
      | inr f ↦ rw (e, f, titled _) refl
    ]
  ],
  (same_ids-Perm (id ∷ ids) (id ∷ ids)).1 (Perm.refl (id ∷ ids)),
)
