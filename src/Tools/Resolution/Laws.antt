-- ===== src/Tools/Resolution/Laws.antt =====
-- What the client defines comes first and is never replaced.
use zai_proxy.Model.Mapping.{is_tools_model}
use zai_proxy.Text.Laws.{bytes_eq_iff}
use zai_proxy.Base.{
  refl, ◌||◌, arith, All-map, ◌≡◌, ◌∙◌, inl, inr, true, false, List, [], ◌∷◌, ◌++◌, map, append-nil,
  append_assoc, if◌then◌else◌, Bool-cases, All,
}
use zai_proxy.Text.{Bytes}
use zai_proxy.Model.Types.{Tool}
use mathlib.Core.List.{map-append}
use mathlib.Core.Path.{subst}
use zai_proxy.Tools.Resolution.{resolve_effective_tools, member, EffectiveTools, tool_name, inject}

-- The built-in tools whose names the client has not taken, in order.
abbrev pub missing : List Bytes → List Tool → List Tool
missing names [] = []
missing names (b ∷ bs) =
    if member (tool_name b) names then missing names bs else b ∷ missing names bs

inject_lem :
    (names : List Bytes) (bs : List Tool) (e : EffectiveTools)
    → inject names bs e ≡ record {
      tools = e.tools ++ missing names bs;
      injected_builtin_names = e.injected_builtin_names ++ map tool_name (missing names bs);
    }
unfolding inject
inject_lem names [] e = simp append-nil
inject_lem names (b ∷ bs) e = elim (Bool-cases (member (tool_name b) names)) [
  | inl taken ↦ rw taken (inject_lem names bs e)
  | inr free ↦ rw free (inject_lem names bs _ ∙ simp append_assoc)
]

missing-member :
    (names : List Bytes) (bs : List Tool)
    → All (λ t. member (tool_name t) names ≡ false) (missing names bs)
missing-member names [] = tt
missing-member names (b ∷ bs) = elim (Bool-cases (member (tool_name b) names)) [
  | inl taken ↦ rw taken (missing-member names bs)
  | inr free ↦ rw free (free, missing-member names bs)
]

member-append :
    (n : Bytes) (xs ys : List Bytes) → member n (xs ++ ys) ≡ (member n xs || member n ys)
unfolding member
member-append n [] ys = refl
member-append n (x ∷ xs) ys = ground (arith, member-append n xs ys)

abbrev Offered : List Bytes → List Tool → Tool → Type 0
Offered names added b =
    (member (tool_name b) names || member (tool_name b) (map tool_name added)) ≡ true

Offered-more :
    (names : List Bytes) (added : List Tool) (b c : Tool)
    → Offered names added c
    → Offered names (b ∷ added) c
Offered-more names added b c h = unfold member in ground arith

missing-Offered : (names : List Bytes) (bs : List Tool) → All (Offered names (missing names bs)) bs
missing-Offered names [] = tt
missing-Offered names (b ∷ bs) = elim (Bool-cases (member (tool_name b) names)) [
  | inl taken ↦
      let e : missing names bs ≡ missing names (b ∷ bs) = rw taken in
      subst (λ m. All (Offered names m) (b ∷ bs)) e (rw taken, missing-Offered names bs)
  | inr free ↦
      let e : b ∷ missing names bs ≡ missing names (b ∷ bs) = rw free in
      subst (λ m. All (Offered names m) (b ∷ bs)) e
        (
          unfold member in ground (arith, bytes_eq_iff (tool_name b) (tool_name b)),
          All-map {Q = Offered names (b ∷ missing names bs)}
              (λ c h. Offered-more names (missing names bs) b c h) bs (missing-Offered names bs),
        )
]

-- The tools that the model is offered: the client's in their order, then the built-in tools whose
-- names the client has not taken, whole and in order; the injected names are theirs. Every built-in
-- tool is offered, by the client's definition or the proxy's.
pub record Extends (client_tools builtins : List Tool) (e : EffectiveTools) : Type 0 where
  pub added : List Tool
  pub added_missing : added ≡ missing (map tool_name client_tools) builtins
  pub client_first : e.tools ≡ client_tools ++ added
  pub names_match : e.injected_builtin_names ≡ map tool_name added
  pub not_taken : All (λ t. member (tool_name t) (map tool_name client_tools) ≡ false) added
  pub complete : All (λ b. member (tool_name b) (map tool_name e.tools) ≡ true) builtins

Offered-client :
    (client_tools added : List Tool) (b : Tool)
    → Offered (map tool_name client_tools) added b
    → member (tool_name b) (map tool_name (client_tools ++ added)) ≡ true
Offered-client client_tools added b h =
    rw (map-append, member-append (tool_name b) (map tool_name client_tools)) h

inject-Extends :
    (builtins client_tools : List Tool)
    → Extends client_tools builtins (
        inject
          (map tool_name client_tools)
          builtins
          (record { tools = client_tools; injected_builtin_names = [] }))
inject-Extends builtins client_tools =
    let added = missing (map tool_name client_tools) builtins in
    rw inject_lem (record {
      added = added;
      added_missing = refl;
      client_first = refl;
      names_match = refl;
      not_taken = missing-member (map tool_name client_tools) builtins;
      complete =
          All-map {Q = λ b. member (tool_name b) (map tool_name (client_tools ++ added)) ≡ true}
            (Offered-client client_tools added) builtins
            (missing-Offered (map tool_name client_tools) builtins);
    })

-- For a model with the tools tag the result is the client's tools and behind them exactly the
-- built-in tools whose names the client does not define, unchanged and in order, whose names are
-- the injected ones; for any other model it is the client's tools and no injected name.
pub resolve_effective_tools-Extends :
    (builtins : List Tool) (model : Bytes) (client_tools : List Tool)
    → (is_tools_model model ≡ true
        → Extends client_tools builtins (resolve_effective_tools builtins model client_tools))
      × (is_tools_model model ≡ false
          → resolve_effective_tools builtins model client_tools
            ≡ record { tools = client_tools; injected_builtin_names = [] })
unfolding resolve_effective_tools
resolve_effective_tools-Extends builtins model client_tools =
    (λ on. rw on (inject-Extends builtins client_tools), λ off. rw off)
