-- ===== src/Ipc/Dispatch.antt =====
-- core/hle/kernel/ipc.c: ipc_dispatch, the binary search in an interface's command table. The
-- interfaces that the pointers of service objects lead to are a parameter of the dispatch. A handler
-- returns its result beside the response it fills.
use voland.Base.{
  ℕ, zero, suc, ◌+◌, ◌-◌, ◌*◌, ◌/◌, ◌≤◌, ◌<◌, ◌≡◌, ◌≢◌, refl, arith, Bool, true, false, not,
}
use voland.Base.{Option, none, some, [], ltb, leb, ◌==◌, if◌then◌else◌, inl, inr, Bool-cases}
use voland.Ipc.{ServiceObject, Response}
use voland.Ipc.Parse.{Request}
pub mod Search

-- HLE_RESULT_NOT_IMPLEMENTED (core/hle/hle.h)
abbrev pub result_not_implemented : ℕ
result_not_implemented = 0x4201

-- `Service_Command_Fn`
abbrev pub Handler : Type 0
Handler = ServiceObject → Request → Response → ℕ × Response

-- `Service_Interface`: the command ids and handlers of its table, by index.
pub record Interface : Type 0 where
  pub command_ids : ℕ → ℕ
  pub handlers : ℕ → Handler
  pub command_count : ℕ

-- The search loop of `ipc_dispatch` for `target` in [lo, hi). Each round at least halves the
-- interval, so that as many rounds as it is long are enough.
unfoldable pub search : (ℕ → ℕ) → ℕ → ℕ → ℕ → ℕ → Option ℕ
search ids target lo hi zero = none
search ids target lo hi (suc fuel) =
    let mid = lo + (hi - lo) / 2 in
    let above = search ids target (mid + 1) hi fuel in
    let below = search ids target lo mid fuel in
    if not (ltb lo hi)
    then none
    else if ids mid == target
    then some mid
    else if ltb (ids mid) target
    then above
    else below

abbrev pub cleared_response : Response
cleared_response = record { result = 0; out_objects = [] }

-- What follows the search: the handler runs on the cleared response, or there is none.
abbrev pub run_command : Interface → ServiceObject → Request → Option ℕ → Response
run_command iface object req none = record cleared_response { result = result_not_implemented }
run_command iface object req (some i) =
    let (result, res) = iface.handlers i object req cleared_response in
    record res { result = result }

-- `ipc_dispatch`, for an object whose interface pointer may be NULL.
unfoldable pub ipc_dispatch : (ℕ → Interface) → ServiceObject → Request → Response
ipc_dispatch interfaces object req = elim object.interface [
  | none ↦ record cleared_response { result = result_not_implemented }
  | some pointer ↦
      let iface = interfaces pointer in
      run_command iface object req
        (search iface.command_ids req.command_id 0 iface.command_count iface.command_count)
]
