-- ===== src/Sm.antt =====
-- core/hle/services/sm/sm.h and sm.c: the registry of services by name, and the commands of sm:.
-- `registrations` with its count is the list of its live entries; a name is its eight bytes. The
-- `SM_Context` that `self->instance` points to is a parameter of a handler.
use voland.Base.{
  ℕ, zero, suc, ◌+◌, ◌-◌, ◌*◌, Bool, true, false, ltb, leb, if◌then◌else◌, same_bytes,
}
use voland.Base.{Option, none, some, List, [], ◌∷◌, ◌++◌, length}
use voland.Result.{Res, ok, err, already_exists, out_of_memory}
use voland.Ipc.{ServiceObject, Response, ipc_response_add_move_object}
use voland.Ipc.Parse.{Request}
use voland.Ipc.Dispatch.{Interface, result_not_implemented}
pub mod Registry
mod Tests

-- SM_SERVICE_NAME_BYTES, SM_MAX_REGISTRATIONS
abbrev pub service_name_bytes : ℕ
service_name_bytes = 8

abbrev pub max_registrations : ℕ
max_registrations = 32

-- SM_RESULT_NOT_FOUND: HLE_MAKE_RESULT(21, 7)
abbrev pub sm_result_not_found : ℕ
sm_result_not_found = 7 * 512 + 21

-- `SM_Registration`
pub record Registration : Type 0 where
  pub name : List ℕ
  pub interface_ptr : ℕ
  pub instance_ptr : ℕ

-- `SM_Context`
pub record SmContext : Type 0 where
  pub registrations : List Registration

-- `sm_context_init`
abbrev pub sm_context_init : SmContext
sm_context_init = record { registrations = [] }

-- The search for a name: the first registration under it.
unfoldable pub find_name : List Registration → List ℕ → Option Registration
find_name [] name = none
find_name (r ∷ rs) name =
    let rest = find_name rs name in if same_bytes r.name name then some r else rest

-- `sm_register_service`
unfoldable pub sm_register_service : SmContext → List ℕ → ℕ → ℕ → Res (Unit {0}) × SmContext
sm_register_service sm name interface_ptr instance_ptr = elim (find_name sm.registrations name) [
  | some r ↦ (err already_exists, sm)
  | none ↦ if leb max_registrations (length sm.registrations) then (err out_of_memory, sm) else (
    ok tt,
    record {
      registrations =
          sm.registrations
          ++ (record { name = name; interface_ptr = interface_ptr; instance_ptr = instance_ptr }
              ∷ []);
    },
  )
]

-- The payload's first bytes, padded with zeros: `n` bytes from `p`, of which `size` are given.
abbrev pub padded_name : (ℕ → ℕ) → ℕ → ℕ → ℕ → List ℕ
padded_name buffer p size zero = []
padded_name buffer p zero (suc n) = 0 ∷ padded_name buffer p zero n
padded_name buffer p (suc size) (suc n) = buffer p ∷ padded_name buffer (p + 1) size n

-- `name` of `sm_cmd_get_service`; without data nothing is copied.
unfoldable pub requested_name : Request → List ℕ
requested_name req = elim req.data_offset [
  | none ↦ padded_name req.buffer 0 0 service_name_bytes
  | some p ↦ padded_name req.buffer p req.data_size service_name_bytes
]

-- `sm_cmd_register_client`
pub sm_cmd_register_client : ServiceObject → Request → Response → ℕ × Response
sm_cmd_register_client self req res = (0, res)

-- The body of the loop at the registration that matches.
abbrev pub move_service : Registration → Response → ℕ × Response
move_service r res =
    let (added, after) =
      ipc_response_add_move_object res
        (record { interface = some r.interface_ptr; instance_ptr = r.instance_ptr }) in
    if added then (0, after) else (result_not_implemented, after)

-- `sm_cmd_get_service`
unfoldable pub sm_cmd_get_service : SmContext → ServiceObject → Request → Response → ℕ × Response
sm_cmd_get_service sm self req res = elim (find_name sm.registrations (requested_name req)) [
  | none ↦ (sm_result_not_found, res)
  | some r ↦ move_service r res
]

-- `sm_commands`: RegisterClient is 0, GetServiceHandle is 1.
abbrev pub sm_handler : SmContext → ℕ → ServiceObject → Request → Response → ℕ × Response
sm_handler sm zero = sm_cmd_register_client
sm_handler sm (suc i) = sm_cmd_get_service sm

-- `sm_interface`
abbrev pub sm_interface : SmContext → Interface
sm_interface sm = record { command_ids = λ i. i; handlers = sm_handler sm; command_count = 2 }

-- `sm_make_service_object`, for the pointers to `sm_interface` and to the context.
pub sm_make_service_object : ℕ → ℕ → ServiceObject
sm_make_service_object interface_ptr sm = record {
  interface = some interface_ptr;
  instance_ptr = sm;
}
