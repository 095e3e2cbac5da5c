-- ===== src/Handler/Collect/Numbering.antt =====
-- `assignToolCallMetadata` on the calls of the parsers.
use zai_proxy.Filter.ToolCall.Kinds.{Functions}
use zai_proxy.Filter.PromptTool.Squeeze.{Numbered}
use zai_proxy.Text.{is_empty, codes, Bytes}
use zai_proxy.Model.Types.{FunctionCall, ToolCall}
use zai_proxy.Handler.Turn.{assign_from}
use zai_proxy.Base.{◌∙◌, ap, ℕ, suc, ◌≡◌, refl, false, List, [], ◌∷◌, ◌++◌, arith, if◌then◌else◌}

given_id :
    (id_prefix rest id : Bytes)
    → is_empty id_prefix ≡ false
    → is_empty (if is_empty id then id_prefix ++ rest else id) ≡ false
given_id [] rest id h = ground arith
given_id (c ∷ p) rest [] h = refl
given_id (c ∷ p) rest (d ∷ id) h = refl

given_kind :
    (kind : Bytes)
    → kind ≡ codes "function"
    → (if is_empty kind then codes "function" else kind) ≡ codes "function"
given_kind kind h = rw h refl

pub assign_from-Functions :
    (draw : ℕ → Bytes) (id_prefix : Bytes) (i : ℕ) (tcs : List ToolCall)
    → is_empty id_prefix ≡ false
    → Functions tcs
    → Numbered i (assign_from draw id_prefix i tcs)
unfolding assign_from
assign_from-Functions draw id_prefix i [] p h = tt
assign_from-Functions draw id_prefix i (tc ∷ tcs) p h = (
  refl,
  given_kind tc.kind h.0,
  given_id id_prefix (draw i) tc.id p,
  assign_from-Functions draw id_prefix (suc i) tcs p h.1,
)

-- A call that has all that the loop gives it.
settled :
    (draw : ℕ → Bytes) (id_prefix : Bytes) (i index : ℕ) (id kind : Bytes) (f : FunctionCall)
    → index ≡ i
    → kind ≡ codes "function"
    → is_empty id ≡ false
    → ◌≡◌ {A = ToolCall}
        (record {
          id = if is_empty id then id_prefix ++ draw i else id;
          kind = if is_empty kind then codes "function" else kind;
          function = f;
          index = i;
        })
        (record { id = id; kind = kind; function = f; index = index })
settled draw id_prefix i index id kind f a b c = rw (c, b, a)

-- Numbered calls stay as they are.
pub assign_from-Numbered :
    (draw : ℕ → Bytes) (id_prefix : Bytes) (i : ℕ) (tcs : List ToolCall)
    → Numbered i tcs
    → assign_from draw id_prefix i tcs ≡ tcs
unfolding assign_from
assign_from-Numbered draw id_prefix i [] h = refl
assign_from-Numbered draw id_prefix i (tc ∷ tcs) h =
    ap (λ c. c ∷ assign_from draw id_prefix (suc i) tcs)
      (settled draw id_prefix i tc.index tc.id tc.kind tc.function h.0 h.1 h.2)
    ∙ ap (◌∷◌ tc) (assign_from-Numbered draw id_prefix (suc i) tcs h.3)
