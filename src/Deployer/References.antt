-- ===== src/Deployer/References.antt =====
-- The references in the status of a deployer, by the UIDs of their objects.
use ocm_k8s_toolkit.Prelude.{
  String, ◌≡◌, refl, true, false, Option, none, some, List, [], ◌∷◌, ◌==◌, arith, if◌then◌else◌,
  eq_refl, eq_iff, Bool-cases, inl, inr, sym, ap, ◌∙◌,
}
use ocm_k8s_toolkit.Deployer.Objects.{
  DeployedObject, DeployedObjectReference, reference_of, put_reference,
  update_deployed_object_status_references,
}

-- the reference under a UID
abbrev reference_for : String → List DeployedObjectReference → Option DeployedObjectReference
reference_for uid [] = none
reference_for uid (r ∷ l) = if r.uid == uid then some r else reference_for uid l

-- the last of the objects with a UID, or else what was there before
abbrev last_object :
    String → List DeployedObject → Option DeployedObjectReference → Option DeployedObjectReference
last_object uid [] before = before
last_object uid (o ∷ objs) before =
    last_object uid objs (if o.uid == uid then some (reference_of o) else before)

-- texts that one text equals are equal
same_uid : (a b c : String) → (a == b) ≡ false → (a == c) ≡ true → (b == c) ≡ false
same_uid a b c n e = elim (Bool-cases (b == c)) [
  | inl k ↦ absurd (ground (arith, n, (eq_iff a b).1 ((eq_iff a c).0 e ∙ sym ((eq_iff b c).0 k))))
  | inr k ↦ k
]

reference_for-put_reference :
    (uid : String) (ref : DeployedObjectReference) (l : List DeployedObjectReference)
    → reference_for uid (put_reference ref l)
      ≡ (if ref.uid == uid then some ref else reference_for uid l)
unfolding put_reference
reference_for-put_reference uid ref [] = refl
reference_for-put_reference uid ref (r ∷ l) = elim (Bool-cases (r.uid == ref.uid)) [
  | inl e ↦ elim (Bool-cases (ref.uid == uid)) [
    | inl f ↦ rw (e, (eq_iff r.uid ref.uid).0 e, f)
    | inr f ↦ rw (e, (eq_iff r.uid ref.uid).0 e, f)
  ]
  | inr n ↦ elim (Bool-cases (r.uid == uid)) [
    | inl e ↦ rw (n, e, same_uid r.uid ref.uid uid n e)
    | inr e ↦ rw (n, e, reference_for-put_reference uid ref l)
  ]
]

-- By UID, the status after the update has the reference of the last object with the UID, and what it
-- had before where no object has it.
reference_for-update_lem :
    (uid : String) (objs : List DeployedObject) (deployed : List DeployedObjectReference)
    → reference_for uid (update_deployed_object_status_references objs deployed)
      ≡ last_object uid objs (reference_for uid deployed)
unfolding update_deployed_object_status_references
reference_for-update_lem uid [] deployed = refl
reference_for-update_lem uid (o ∷ objs) deployed =
    reference_for-update_lem uid objs (put_reference (reference_of o) deployed)
    ∙ ap (last_object uid objs) (reference_for-put_reference uid (reference_of o) deployed)

-- the objects all have the UID
abbrev pub AllWith : String → List DeployedObject → Type 0
AllWith uid [] = Unit
AllWith uid (o ∷ objs) = (o.uid ≡ uid) × AllWith uid objs

-- the last of an object and the ones after it
abbrev pub latest : DeployedObject → List DeployedObject → DeployedObject
latest o [] = o
latest o (p ∷ objs) = latest p objs

put_reference_over :
    (uid : String) (o p : DeployedObject)
    → o.uid ≡ uid
    → p.uid ≡ uid
    → put_reference (reference_of p) (reference_of o ∷ []) ≡ reference_of p ∷ []
unfolding put_reference
put_reference_over uid o p e f = rw (e, f, eq_refl uid)

collapsed :
    (uid : String) (o : DeployedObject) (objs : List DeployedObject)
    → AllWith uid (o ∷ objs)
    → update_deployed_object_status_references objs (reference_of o ∷ [])
      ≡ reference_of (latest o objs) ∷ []
unfolding update_deployed_object_status_references
collapsed uid o [] h = refl
collapsed uid o (p ∷ objs) (e, (f, h)) =
    ap (update_deployed_object_status_references objs) (put_reference_over uid o p e f)
    ∙ collapsed uid p objs (f, h)

-- If the objects of a download all have one UID, such as the empty one of a manifest, then of all of
-- them a status without references gets that of the last one only.
pub update_deployed_object_status_references_collapse :
    (uid : String) (o : DeployedObject) (objs : List DeployedObject)
    → AllWith uid (o ∷ objs)
    → update_deployed_object_status_references (o ∷ objs) [] ≡ reference_of (latest o objs) ∷ []
unfolding update_deployed_object_status_references put_reference
update_deployed_object_status_references_collapse uid o objs h = collapsed uid o objs h
