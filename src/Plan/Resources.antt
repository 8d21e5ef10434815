-- ===== src/Plan/Resources.antt =====
-- `ResourceRef` of crates/synchrotron-reconcile/src/plan.rs.
use text.Mathlib.TextEquality.{eq_iff}
use synchrotron.Base.{
  ◌≡◌, ◌↔◌, Bool, true, ◌&&◌, Option, String, arith, PartialEq, ◌==◌, String_eq, Option_eq,
  option_beq_iff,
}
use synchrotron.Manifest.{Yaml, Gvk, Gvk_eq, gvk_beq_iff, Manifest}

pub record ResourceRef : Type 0 where
  pub gvk : Gvk
  pub namespace : Option String
  pub name : String

-- `ResourceRef::of`
abbrev pub of : {Y : Yaml} → Manifest Y → ResourceRef
of m = record { gvk = m.gvk; namespace = m.namespace; name = m.name }

unfoldable pub ref_beq : ResourceRef → ResourceRef → Bool
ref_beq a b = a.gvk == b.gvk && a.namespace == b.namespace && a.name == b.name

pub ref_beq_iff : (a b : ResourceRef) → (ref_beq a b ≡ true) ↔ (a ≡ b)
unfolding ref_beq
ref_beq_iff a b =
    ground
      (arith, gvk_beq_iff a.gvk b.gvk, option_beq_iff a.namespace b.namespace, eq_iff a.name b.name)

instance abbrev pub ResourceRef_eq : PartialEq ResourceRef
ResourceRef_eq = record { tests = ref_beq; decides = ref_beq_iff }
