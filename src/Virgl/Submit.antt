-- ===== src/Virgl/Submit.antt =====
-- virgl_submit (src/chip/chip_virgl.c) over time: the context's error latches.
use virt_iogpu.Prelude.{
  ℕ, ◌≡◌, refl, Bool, true, false, List, [], ◌∷◌, Option, none, some, if◌then◌else◌, length, ◌==◌,
  Bool-cases, inl, inr, ap,
}
use virt_iogpu.Virgl.CmdBuf.{CmdBuf, submit}

-- A call of virgl_submit, with what chip_Submit3D would answer.
pub record Attempt : Type 0 where
  pub accepted : Bool
  pub cbuf : CmdBuf

abbrev sent_before : Option (List ℕ) → List (List ℕ) → List (List ℕ)
sent_before none rest = rest
sent_before (some ws) rest = ws ∷ rest

-- The buffers that reach chip_Submit3D.
unfoldable pub sends : Bool → List Attempt → List (List ℕ)
sends error [] = []
sends error (a ∷ later) =
    let r = submit a.accepted error a.cbuf in sent_before r.sent (sends r.virgl_ctx_error later)

-- The buffers that hold a command, up to the first one that is refused.
unfoldable pub until_refused : List Attempt → List (List ℕ)
until_refused [] = []
until_refused (a ∷ later) =
    let rest = until_refused later in
    if length a.cbuf.words == 0 then rest else a.cbuf.words ∷ (if a.accepted then rest else [])

sends-poisoned : (attempts : List Attempt) → sends true attempts ≡ []
unfolding sends submit
sends-poisoned [] = refl
sends-poisoned (a ∷ later) = elim (Bool-cases (length a.cbuf.words == 0)) [
  | inl empty ↦ rw empty (sends-poisoned later)
  | inr full ↦ rw full (sends-poisoned later)
]

-- From a healthy context, calls of virgl_submit send every buffer that is not empty, in order, up
-- to and including the first that is refused, and nothing after it.
pub sends-until_refused : (attempts : List Attempt) → sends false attempts ≡ until_refused attempts
unfolding sends until_refused submit
sends-until_refused [] = refl
sends-until_refused (a ∷ later) = elim (Bool-cases (length a.cbuf.words == 0)) [
  | inl empty ↦ rw empty (sends-until_refused later)
  | inr full ↦ elim (Bool-cases a.accepted) [
    | inl taken ↦ rw (full, taken) (ap (◌∷◌ a.cbuf.words) (sends-until_refused later))
    | inr refused ↦ rw (full, refused) (ap (◌∷◌ a.cbuf.words) (sends-poisoned later))
  ]
]
