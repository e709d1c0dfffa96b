-- ===== src/Sm/Registry.antt =====
-- The registry of sm: (core/hle/services/sm/sm.c) as a finite map from names to services, and the
-- dispatch of GetServiceHandle through `ipc_dispatch`.
use voland.Base.{
  ℕ, ◌≤◌, ◌≡◌, ◌≢◌, refl, arith, true, false, leb, if◌then◌else◌, same_bytes, same_bytes_self,
  same_bytes→eq,
}
use voland.Base.{
  Option, none, some, List, [], ◌∷◌, ◌++◌, length, inl, inr, Bool-cases, Option-cases, sym, ◌∙◌, ap,
}
use voland.Result.{Res, ok, err, already_exists, out_of_memory}
use voland.Ipc.{ServiceObject}
use voland.Sm.{Registration, SmContext, find_name, sm_register_service, max_registrations}

-- The service under a name.
abbrev pub service : Option Registration → Option ServiceObject
service none = none
service (some r) = some (record { interface = some r.interface_ptr; instance_ptr = r.instance_ptr })

abbrev pub service_at : SmContext → List ℕ → Option ServiceObject
service_at sm name = service (find_name sm.registrations name)

find_name-append :
    (rs : List Registration) (r : Registration) (name : List ℕ)
    → find_name rs r.name ≡ none
    → find_name (rs ++ (r ∷ [])) name
      ≡ (if same_bytes r.name name then some r else find_name rs name)
unfolding find_name
find_name-append [] r name free = refl
find_name-append (s ∷ rs) r name free = elim (Bool-cases (same_bytes s.name r.name)) [
  | inl hit ↦ absurd (cc (rw hit at free))
  | inr miss ↦ elim (Bool-cases (same_bytes s.name name)) [
    | inr off ↦ rw off (find_name-append rs r name (rw miss at free))
    | inl at ↦ elim (Bool-cases (same_bytes r.name name)) [
      | inr other ↦ rw (at, other)
      | inl both ↦
          let same : s.name ≡ r.name =
            same_bytes→eq s.name name at ∙ sym (same_bytes→eq r.name name both) in
          let hit : same_bytes s.name r.name ≡ true = rw same (same_bytes_self r.name) in
          let clash : true ≡ false = sym hit ∙ miss in absurd cc
    ]
  ]
]

-- What `sm_register_service` may give.
abbrev pub Registered : SmContext → List ℕ → ServiceObject → Res (Unit {0}) × SmContext → Type 0
Registered sm name object (ok done, after) =
    (service_at sm name ≡ none)
    × ((n : List ℕ)
        → service_at after n ≡ (if same_bytes name n then some object else service_at sm n))
Registered sm name object (err already_exists, after) = (after ≡ sm) × (service_at sm name ≢ none)
Registered sm name object (err out_of_memory, after) =
    (after ≡ sm) × (service_at sm name ≡ none) × (max_registrations ≤ length sm.registrations)
Registered sm name object (err code, after) = ⊥

-- `sm_register_service` adds the service under its name, if the name is not taken and a slot is left,
-- and changes what no other name stands for; on either error the registry is as it was.
pub sm_register_service_lem :
    (sm : SmContext) (name : List ℕ) (interface_ptr instance_ptr : ℕ)
    → Registered sm name
        (record { interface = some interface_ptr; instance_ptr = instance_ptr })
        (sm_register_service sm name interface_ptr instance_ptr)
unfolding sm_register_service
sm_register_service_lem sm name interface_ptr instance_ptr =
    elim (Option-cases (find_name sm.registrations name)) [
      | inr (r, e) ↦
          rw (e, sm_register_service)
            (refl, λ z. let clash : service (some r) ≡ none = sym (ap service e) ∙ z in cc)
      | inl e ↦ elim (Bool-cases (leb max_registrations (length sm.registrations))) [
        | inl full ↦ rw (e, full, sm_register_service) (refl, ap service e, ground arith)
        | inr room ↦ rw (e, room, sm_register_service) (ap service e, added e)
      ]
    ]
  where
    entry : Registration
    entry = record { name = name; interface_ptr = interface_ptr; instance_ptr = instance_ptr }

    added :
        find_name sm.registrations name ≡ none
        → (n : List ℕ)
        → service (find_name (sm.registrations ++ (entry ∷ [])) n) ≡ (
            if same_bytes name n
            then some (record { interface = some interface_ptr; instance_ptr = instance_ptr })
            else service_at sm n)
    added e n =
        ap service (find_name-append sm.registrations entry n e)
        ∙ (elim (Bool-cases (same_bytes name n)) [ inl h ↦ rw h | inr h ↦ rw h ])
