-- ===== src/Policy/Admission.antt =====
-- `admit` of crates/barista-node-agent/src/admission.rs. Whether a text parses as a ULID is the
-- `ulid` crate's answer and an argument; the texts of the refusals are left out.
use Prim.Native.Char.{Char, code}
use Prim.Native.String.{String, [], ◌∷◌, ◌++◌}
use Prim.Native.String.append
use barista_sh.Base.{
  Bool, Bool-cases, true, false, not, ◌&&◌, ◌||◌, ◌==◌, leb, if◌then◌else◌, Option, none, some, ◌≡◌,
  ◌↔◌, inl, inr, Option-cases, refl, sym, ◌∙◌, ap, arith,
}
use barista_sh.Contract.{ErrorReason}
use barista_sh.Contract.Spec.{
  OciImageRef, TemplateRef, EgressPolicy, InstanceSpec, RuntimeCapabilities,
}

-- `char::is_whitespace`: the characters that `str::trim` strips
abbrev pub is_whitespace : Char → Bool
is_whitespace c =
    (leb 9 (code c) && leb (code c) 13)
    || (code c == 32)
    || (code c == 133)
    || (code c == 160)
    || (code c == 5760)
    || (leb 8192 (code c) && leb (code c) 8202)
    || (code c == 8232)
    || (code c == 8233)
    || (code c == 8239)
    || (code c == 8287)
    || (code c == 12288)

-- `s.trim().is_empty()`
unfoldable pub trims_to_empty : String → Bool
trims_to_empty [] = true
trims_to_empty (c ∷ s) = is_whitespace c && trims_to_empty s

-- `spec.template.as_ref().and_then(|t| t.oci.as_ref())`
abbrev pub template_oci : Option TemplateRef → Option OciImageRef
template_oci none = none
template_oci (some t) = t.oci

-- whether the template is there and pinned by a digest
abbrev pub is_pinned : Option OciImageRef → Bool
is_pinned none = false
is_pinned (some oci) = not (trims_to_empty oci.digest)

-- `spec.egress.is_some_and(|e| e.mediated)`
abbrev pub asks_mediation : Option EgressPolicy → Bool
asks_mediation none = false
asks_mediation (some e) = e.mediated

-- `admit`: the reason of its refusal, if it refuses
unfoldable pub admit :
    (String → Bool) → InstanceSpec → Bool → RuntimeCapabilities → Option ErrorReason
admit is_ulid spec require_hardware_isolation caps =
    if not (is_ulid spec.instance_id)
    then some ErrorReason.invalid_spec
    else if not (is_pinned (template_oci spec.template))
    then some ErrorReason.invalid_spec
    else if require_hardware_isolation && not caps.hardware_isolation
    then some ErrorReason.capability_missing
    else if asks_mediation spec.egress && not caps.egress_control
    then some ErrorReason.capability_missing
    else none

-- A digest with a character that is not white space.
abbrev pub Visible : String → Type 0
Visible s =
    (before : String) × (c : Char) × (after : String) × (s ≡ before ++ (c ∷ after))
    × (is_whitespace c ≡ false)

-- A spec that names a ULID and pins its template.
pub record WellFormed (is_ulid : String → Bool) (spec : InstanceSpec) : Type 0 where
  pub names_ulid : is_ulid spec.instance_id ≡ true
  pub pinned :
      (t : TemplateRef) × (oci : OciImageRef) × (spec.template ≡ some t)
      × (t.oci ≡ some oci)
      × Visible oci.digest

-- A runtime that provides what a request demands.
pub record Honoured (spec : InstanceSpec) (require : Bool) (caps : RuntimeCapabilities)
    : Type 0 where
  pub isolates : require ≡ true → caps.hardware_isolation ≡ true
  pub confines :
      (e : EgressPolicy) → spec.egress ≡ some e → e.mediated ≡ true → caps.egress_control ≡ true

trims-Visible : (s : String) → trims_to_empty s ≡ false → Visible s
unfolding trims_to_empty
trims-Visible [] h = absurd cc
trims-Visible (c ∷ s) h = elim (Bool-cases (is_whitespace c)) [
  | inl blank ↦
      let (b, d, a, e, v) = trims-Visible s (rw blank at h) in
      (c ∷ b, d, a, ap (λ t. c ∷ t) e ∙ sym (append.cons c b (d ∷ a)), v)
  | inr v ↦ ([], c, s, sym (append.nil (c ∷ s)), v)
]

Visible-trims :
    (b : String) (c : Char) (a : String)
    → is_whitespace c ≡ false
    → trims_to_empty (b ++ (c ∷ a)) ≡ false
unfolding trims_to_empty
Visible-trims [] c a v = ap trims_to_empty (append.nil (c ∷ a)) ∙ rw v
Visible-trims (d ∷ b) c a v =
    ap trims_to_empty (append.cons d b (c ∷ a)) ∙ elim (Bool-cases (is_whitespace d)) [
      | inl blank ↦ rw blank (Visible-trims b c a v)
      | inr seen ↦ rw seen
    ]

is_pinned_iff :
    (template : Option TemplateRef)
    → (is_pinned (template_oci template) ≡ true) ↔ (
        (t : TemplateRef) × (oci : OciImageRef) × (template ≡ some t)
        × (t.oci ≡ some oci)
        × Visible oci.digest)
is_pinned_iff none = (λ e. absurd cc, λ w. absurd (cc (w.2)))
is_pinned_iff (some t) = (
  λ e. elim (Option-cases t.oci) [
    | inl n ↦ absurd (cc (rw n at e))
    | inr (oci, o) ↦ (t, oci, refl, o, trims-Visible oci.digest (ground (arith, rw o at e)))
  ],
  λ (u, oci, same, o, (b, c, a, d, v)).
      ap is_pinned (ap template_oci same ∙ o)
      ∙ ap (λ x. not (trims_to_empty x)) d
      ∙ ap not (Visible-trims b c a v),
)

egress_confined :
    (egress : Option EgressPolicy) (control : Bool)
    → (asks_mediation egress && not control ≡ false)
      ↔ ((e : EgressPolicy) → egress ≡ some e → e.mediated ≡ true → control ≡ true)
egress_confined none control = (λ h e p m. absurd cc, λ h. refl)
egress_confined (some e) control = (
  λ h d p m. ground (arith, ap asks_mediation p, h, m),
  λ h. elim (Bool-cases e.mediated) [ inl m ↦ rw (m, h e refl m) | inr m ↦ rw m ],
)

well_formed : (String → Bool) → InstanceSpec → Bool
well_formed is_ulid spec = is_ulid spec.instance_id && is_pinned (template_oci spec.template)

well_formed_iff :
    (is_ulid : String → Bool) (spec : InstanceSpec)
    → (well_formed is_ulid spec ≡ true) ↔ WellFormed is_ulid spec
unfolding well_formed
well_formed_iff is_ulid spec = (
  λ h. record {
    names_ulid = ground (arith, h);
    pinned = (is_pinned_iff spec.template).0 (ground (arith, h));
  },
  λ w. rw (w.names_ulid, (is_pinned_iff spec.template).1 w.pinned),
)

honoured : InstanceSpec → Bool → RuntimeCapabilities → Bool
honoured spec require caps =
    not (require && not caps.hardware_isolation)
    && not (asks_mediation spec.egress && not caps.egress_control)

honoured_iff :
    (spec : InstanceSpec) (require : Bool) (caps : RuntimeCapabilities)
    → (honoured spec require caps ≡ true) ↔ Honoured spec require caps
unfolding honoured
honoured_iff spec require caps = (
  λ h. record {
    isolates = λ r. ground (arith, r, h);
    confines = (egress_confined spec.egress caps.egress_control).0 (ground (arith, h));
  },
  λ w. ground (arith, w.isolates, (egress_confined spec.egress caps.egress_control).1 w.confines),
)

admit-tests :
    (is_ulid : String → Bool) (spec : InstanceSpec) (require : Bool) (caps : RuntimeCapabilities)
    → admit is_ulid spec require caps ≡ (
        if well_formed is_ulid spec
        then if honoured spec require caps then none else some ErrorReason.capability_missing
        else some ErrorReason.invalid_spec)
unfolding admit well_formed honoured
admit-tests is_ulid spec require caps = ground arith

verdict :
    {W H : Type 0} (a b : Bool) (o : Option ErrorReason)
    → (a ≡ true) ↔ W
    → (b ≡ true) ↔ H
    → o ≡ (
        if a
        then if b then none else some ErrorReason.capability_missing
        else some ErrorReason.invalid_spec)
    → ((o ≡ none) ↔ (W × H))
      × ((o ≡ some ErrorReason.invalid_spec) ↔ ¬ W)
      × ((o ≡ some ErrorReason.capability_missing) ↔ (W × ¬ H))
verdict true true o w h e = (
  (λ _. (w.0 refl, h.0 refl), λ _. e),
  (λ q. absurd cc, λ n. absurd (n (w.0 refl))),
  (λ q. absurd cc, λ p. absurd (p.1 (h.0 refl))),
)
verdict true false o w h e = (
  (λ q. absurd cc, λ p. absurd (cc (h.1 (p.1)))),
  (λ q. absurd cc, λ n. absurd (n (w.0 refl))),
  (λ _. (w.0 refl, λ p. cc (h.1 p)), λ _. e),
)
verdict false b o w h e = (
  (λ q. absurd cc, λ p. absurd (cc (w.1 (p.0)))),
  (λ _ p. cc (w.1 p), λ _. e),
  (λ q. absurd cc, λ p. absurd (cc (w.1 (p.0)))),
)

-- Admission has three outcomes and no other. A spec is refused as invalid exactly when it does not
-- name a ULID or does not pin its template by a digest with a character that is not white space,
-- whatever the runtime provides. A spec without such a fault is admitted exactly when the runtime
-- has hardware isolation if the request requires it and egress control if the spec asks for
-- mediation, and is refused for a missing capability exactly when the runtime does not.
pub admit_verdict :
    (is_ulid : String → Bool) (spec : InstanceSpec) (require : Bool) (caps : RuntimeCapabilities)
    → ((admit is_ulid spec require caps ≡ none)
        ↔ (WellFormed is_ulid spec × Honoured spec require caps))
      × ((admit is_ulid spec require caps ≡ some ErrorReason.invalid_spec)
          ↔ ¬ WellFormed is_ulid spec)
      × ((admit is_ulid spec require caps ≡ some ErrorReason.capability_missing)
          ↔ (WellFormed is_ulid spec × ¬ Honoured spec require caps))
admit_verdict is_ulid spec require caps =
    verdict (well_formed is_ulid spec) (honoured spec require caps)
      (admit is_ulid spec require caps) (well_formed_iff is_ulid spec)
      (honoured_iff spec require caps) (admit-tests is_ulid spec require caps)
