-- ===== src/Sm/Tests.antt =====
-- Runs of core/hle/services/sm/sm.c: a registry of one service, registered and asked for.
use voland.Base.{update, ℕ, Bool, some, List, [], ◌∷◌}
use voland.Ipc.Parse.{Request, request}
use voland.Sm.{SmContext, sm_context_init, sm_register_service}
use voland.Sm.Registry.{Registered, sm_register_service_lem}

-- "hid", padded.
abbrev hid : List ℕ
hid = 104 ∷ 105 ∷ 100 ∷ 0 ∷ 0 ∷ 0 ∷ 0 ∷ 0 ∷ []

sm_register_service_lem_example :
    Registered sm_context_init hid
      (record { interface = some 3; instance_ptr = 4 })
      (sm_register_service sm_context_init hid 3 4)
sm_register_service_lem_example = sm_register_service_lem sm_context_init hid 3 4

abbrev one_service : SmContext
one_service = record {
  registrations = record { name = hid; interface_ptr = 3; instance_ptr = 4 } ∷ [];
}

abbrev letter : ℕ → ℕ
letter = update (update (update (λ _. 0) 0 104) 1 105) 2 100

abbrev ask : Request
ask = record {
  type = request;
  command_id = 1;
  has_pid = Bool.false;
  guest_pid = 0;
  buffer = letter;
  data_offset = some 0;
  data_size = 8;
}
