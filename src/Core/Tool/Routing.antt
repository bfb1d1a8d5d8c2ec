-- ===== src/Core/Tool/Routing.antt =====
-- tool.rs: what the registry answers.
use mathlib.Core.List.{append_assoc, map-append, append-nil}
use llmdevsilo.Prelude.{
  ◌≡◌, refl, sym, ap, ◌∙◌, Bool, String, List, [], ◌∷◌, ◌++◌, map, Option, none, some, ◌==◌,
  string_eq, find, keep, arith, if◌then◌else◌, any,
}
use llmdevsilo.Core.Conversation.{AgentKind}
use llmdevsilo.Core.Tool.{
  ToolDef, ToolOwner, RegisteredTool, ToolRegistry, add, add_all, defs_for, owner_of, available_to,
}

abbrev registered : ToolOwner → ToolDef → RegisteredTool
registered owner def = record { def = def; owner = owner }

add_all-entries :
    (registry : ToolRegistry) (defs : List ToolDef) (owner : ToolOwner)
    → (add_all registry defs owner).entries ≡ registry.entries ++ map (registered owner) defs
unfolding add_all add
add_all-entries registry [] owner = sym (append-nil registry.entries)
add_all-entries registry (def ∷ defs) owner =
    add_all-entries (add registry def owner) defs owner
    ∙ append_assoc registry.entries (registered owner def ∷ []) (map (registered owner) defs)

abbrev owner_in : String → List RegisteredTool → Option ToolOwner
owner_in name entries = elim (find (λ e. e.def.name == name) entries) [
  | some e ↦ some e.owner
  | none ↦ none
]

owner_in-append :
    (name : String) (entries : List RegisteredTool) (defs : List ToolDef) (owner : ToolOwner)
    → owner_in name (entries ++ map (registered owner) defs) ≡ (elim (owner_in name entries) [
      | some o ↦ some o
      | none ↦ if any (λ d. d.name == name) defs then some owner else none
    ])
owner_in-append name [] [] owner = refl
owner_in-append name [] (def ∷ defs) owner = ground (arith, owner_in-append name [] defs owner)
owner_in-append name (e ∷ entries) defs owner =
    ground (arith, owner_in-append name entries defs owner)

-- A tool that is registered twice keeps its first owner: adding definitions routes to the new owner
-- just the names among them that no earlier entry has, and changes no other route.
pub owner_of-add_all :
    (registry : ToolRegistry) (defs : List ToolDef) (owner : ToolOwner) (name : String)
    → owner_of (add_all registry defs owner) name ≡ (elim (owner_of registry name) [
      | some o ↦ some o
      | none ↦ if any (λ d. d.name == name) defs then some owner else none
    ])
unfolding owner_of
owner_of-add_all registry defs owner name =
    ap (owner_in name) (add_all-entries registry defs owner)
    ∙ owner_in-append name registry.entries defs owner

keep-append :
    (p : RegisteredTool → Bool) (xs ys : List RegisteredTool)
    → keep p (xs ++ ys) ≡ keep p xs ++ keep p ys
keep-append p [] ys = refl
keep-append p (x ∷ xs) ys = ground (arith, keep-append p xs ys)

keep-registered :
    (kind : AgentKind) (owner : ToolOwner) (defs : List ToolDef)
    → map
        (λ (e : RegisteredTool). e.def)
        (keep (λ e. available_to e.def.availability kind) (map (registered owner) defs))
      ≡ keep (λ (d : ToolDef). available_to d.availability kind) defs
keep-registered kind owner [] = refl
keep-registered kind owner (d ∷ defs) = ground (arith, keep-registered kind owner defs)

-- An agent sees of the added definitions just those for its kind, in order, behind what it saw.
pub defs_for-add_all :
    (registry : ToolRegistry) (defs : List ToolDef) (owner : ToolOwner) (kind : AgentKind)
    → defs_for (add_all registry defs owner) kind
      ≡ defs_for registry kind ++ keep (λ d. available_to d.availability kind) defs
unfolding defs_for
defs_for-add_all registry defs owner kind =
    rw
      (
        add_all-entries registry defs owner,
        keep-append (λ e. available_to e.def.availability kind) registry.entries
            (map (registered owner) defs),
        map-append,
      )
      (ap
        (λ ds.
          map (λ (e : RegisteredTool). e.def)
            (keep (λ e. available_to e.def.availability kind) registry.entries)
          ++ ds)
        (keep-registered kind owner defs))
