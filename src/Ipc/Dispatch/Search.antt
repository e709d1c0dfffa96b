-- ===== src/Ipc/Dispatch/Search.antt =====
-- The binary search of `ipc_dispatch` (core/hle/kernel/ipc.c) against its command table.
use voland.Base.{ℕ, zero, suc, ◌+◌, ◌-◌, ◌/◌, ◌≤◌, ◌<◌, ◌≡◌, ◌≢◌, refl, arith}
use voland.Base.{Option, none, some, ltb, leb, ◌==◌, inl, inr, Bool-cases, ◌∙◌, ap, sym}
use voland.Ipc.{ServiceObject, Response}
use voland.Ipc.Parse.{Request}
use voland.Ipc.Dispatch.{
  run_command, Interface, search, ipc_dispatch, cleared_response, result_not_implemented,
}

-- The table is strictly ascending, as ipc.h asks for.
abbrev pub IsAscending : (ℕ → ℕ) → ℕ → Type 0
IsAscending ids count = (i j : ℕ) → i < j → j < count → ids i < ids j

-- What a search may give.
abbrev pub Found : (ℕ → ℕ) → ℕ → ℕ → ℕ → Option ℕ → Type 0
Found ids target lo hi none = (i : ℕ) → lo ≤ i → i < hi → ids i ≢ target
Found ids target lo hi (some i) = (lo ≤ i) × (i < hi) × (ids i ≡ target)

widen_above :
    (ids : ℕ → ℕ) (target lo hi mid : ℕ) (r : Option ℕ)
    → ((i : ℕ) → lo ≤ i → i ≤ mid → ids i ≢ target)
    → lo ≤ mid
    → Found ids target (mid + 1) hi r
    → Found ids target lo hi r
widen_above ids target lo hi mid none off le f = λ i low high. elim (Bool-cases (leb i mid)) [
  | inl e ↦ off i low (ground arith)
  | inr e ↦ f i (ground arith) high
]
widen_above ids target lo hi mid (some i) off le f = (omega (arith, f), f.1, f.2)

widen_below :
    (ids : ℕ → ℕ) (target lo hi mid : ℕ) (r : Option ℕ)
    → ((i : ℕ) → mid ≤ i → i < hi → ids i ≢ target)
    → mid < hi
    → Found ids target lo mid r
    → Found ids target lo hi r
widen_below ids target lo hi mid none off lt f = λ i low high. elim (Bool-cases (leb mid i)) [
  | inl e ↦ off i (ground arith) high
  | inr e ↦ f i low (ground arith)
]
widen_below ids target lo hi mid (some i) off lt f = (f.0, omega (arith, f), f.2)

search_lem :
    (ids : ℕ → ℕ) (target count fuel lo hi : ℕ)
    → IsAscending ids count
    → hi ≤ count
    → hi ≤ lo + fuel
    → Found ids target lo hi (search ids target lo hi fuel)
unfolding search
search_lem ids target count zero lo hi asc le enough = λ i low high. absurd (omega arith)
search_lem ids target count (suc fuel) lo hi asc le enough =
    let mid = lo + (hi - lo) / 2 in
    let above = search_lem ids target count fuel (mid + 1) hi asc le (omega arith) in
    elim (Bool-cases (ltb lo hi)) [
      | inr e ↦ rw e (λ i low high. absurd (ground arith))
      | inl e ↦
          let lt : lo < hi = ground arith in
          let inside : mid < hi = omega arith in
          let below = search_lem ids target count fuel lo mid asc (omega arith) (omega arith) in
          elim (Bool-cases (ids mid == target)) [
            | inl f ↦ rw (e, f) (omega arith, inside, ground arith)
            | inr f ↦ elim (Bool-cases (ltb (ids mid) target)) [
              | inl g ↦
                  rw (e, f, g)
                    (widen_above ids target lo hi mid _
                      (λ i low high same. absurd (elim (Bool-cases (i == mid)) [
                        | inl at ↦ let here : i ≡ mid = ground arith in ground (arith, ap ids here)
                        | inr off ↦ ground (arith, asc i mid)
                      ]))
                      (omega arith) above)
              | inr g ↦
                  rw (e, f, g)
                    (widen_below ids target lo hi mid _
                      (λ i low high same. absurd (elim (Bool-cases (i == mid)) [
                        | inl at ↦ let here : i ≡ mid = ground arith in ground (arith, ap ids here)
                        | inr off ↦ ground (arith, asc mid i)
                      ]))
                      inside below)
            ]
          ]
    ]

-- What `ipc_dispatch` must give: the answer of the handler whose id the request names, or the
-- unimplemented answer when the table has none.
pub record Dispatched (iface : Interface) (object : ServiceObject) (req : Request) (res : Response)
    : Type 0 where
  pub known :
      (i : ℕ)
      → i < iface.command_count
      → iface.command_ids i ≡ req.command_id
      → res ≡ record (iface.handlers i object req cleared_response).1 {
        result = (iface.handlers i object req cleared_response).0;
      }
  pub unknown :
      ((i : ℕ) → i < iface.command_count → iface.command_ids i ≢ req.command_id)
      → res ≡ record cleared_response { result = result_not_implemented }

-- On a table in ascending order, the binary search of `ipc_dispatch` runs the handler of the request's
-- command id, wherever it stands, with a cleared response; without one it answers NOT_IMPLEMENTED and
-- moves no object.
pub ipc_dispatch_lem :
    (interfaces : ℕ → Interface) (pointer instance_ptr : ℕ) (req : Request)
    → IsAscending (interfaces pointer).command_ids (interfaces pointer).command_count
    → Dispatched
        (interfaces pointer)
        (record { interface = some pointer; instance_ptr = instance_ptr })
        req
        (ipc_dispatch interfaces
          (record { interface = some pointer; instance_ptr = instance_ptr })
          req)
unfolding ipc_dispatch
ipc_dispatch_lem interfaces pointer instance_ptr req asc =
    go (search iface.command_ids req.command_id 0 iface.command_count iface.command_count) (
      search_lem iface.command_ids req.command_id iface.command_count iface.command_count 0
        iface.command_count asc (omega arith) (omega arith))
  where
    iface : Interface
    iface = interfaces pointer

    object : ServiceObject
    object = record { interface = some pointer; instance_ptr = instance_ptr }

    once :
        (i j : ℕ)
        → i < iface.command_count
        → j < iface.command_count
        → iface.command_ids i ≡ iface.command_ids j
        → i ≡ j
    once i j p q e = ground (arith, asc i j, asc j i)

    go :
        (r : Option ℕ)
        → Found iface.command_ids req.command_id 0 iface.command_count r
        → Dispatched iface object req (run_command iface object req r)
    go none f = record { known = λ i lt e. absurd (f i (omega arith) lt e); unknown = λ h. refl }
    go (some i) (low, lt, e) = record {
      known = λ j p q. (let same : j ≡ i = once j i p lt (q ∙ sym e) in rw same);
      unknown = λ h. absurd (h i lt e);
    }
