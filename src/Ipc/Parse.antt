-- ===== src/Ipc/Parse.antt =====
-- core/hle/kernel/ipc.c: ipc_request_parse and ipc_response_write. A command buffer is a function from
-- the offset to the byte, little endian; a field is read by division, for the masks are of low bits.
-- `IPC_Request::data`, a pointer into the buffer, is the buffer and an offset.
use voland.Base.{ℕ, zero, suc, ◌+◌, ◌-◌, ◌*◌, ◌/◌, ◌%◌, ◌^◌, Bool, true, false, not, ◌||◌, ◌&&◌}
use voland.Base.{Option, none, some, List, [], ◌∷◌, length, ltb, leb, ◌==◌, if◌then◌else◌, update}
use voland.Result.{Res, ok, err, invalid_argument, not_implemented, memory_fault}
use voland.Ipc.{Response}
pub mod Bounds

-- TLS_IPC_COMMAND_BUFFER_BYTES
abbrev pub command_buffer_bytes : ℕ
command_buffer_bytes = 0x100

-- The kinds of `IPC_Message_Type` that parse.
pub data MessageType : Type 0 where
  request close : MessageType

-- `IPC_Request`
pub record Request : Type 0 where
  pub type : MessageType
  pub command_id : ℕ
  pub has_pid : Bool
  pub guest_pid : ℕ
  pub buffer : ℕ → ℕ
  pub data_offset : Option ℕ
  pub data_size : ℕ

-- `read_u32`, `read_u64`
unfoldable pub read_u32 : (ℕ → ℕ) → ℕ → ℕ
read_u32 buffer p =
    buffer p + buffer (p + 1) * 2 ^ 8 + buffer (p + 2) * 2 ^ 16 + buffer (p + 3) * 2 ^ 24

pub read_u64 : (ℕ → ℕ) → ℕ → ℕ
read_u64 buffer p = read_u32 buffer p + read_u32 buffer (p + 4) * 2 ^ 32

-- `write_u32`
unfoldable pub write_u32 : (ℕ → ℕ) → ℕ → ℕ → ℕ → ℕ
write_u32 buffer p v =
    update
      (update (update (update buffer p (v % 2 ^ 8)) (p + 1) (v / 2 ^ 8 % 2 ^ 8)) (p + 2)
        (v / 2 ^ 16 % 2 ^ 8))
      (p + 3) (v / 2 ^ 24 % 2 ^ 8)

-- `align_up` to IPC_CMIF_ALIGN.
abbrev pub align_cmif : ℕ → ℕ
align_cmif value = (value + 15) / 16 * 16

abbrev pub sfci_magic : ℕ
sfci_magic = 0x49434653

abbrev pub sfco_magic : ℕ
sfco_magic = 0x4F434653

-- What the special header leaves: where the next section starts, and the pid.
pub record SpecialHeader : Type 0 where
  pub offset : ℕ
  pub has_pid : Bool
  pub guest_pid : ℕ

-- The block under `if (has_special_header)`.
unfoldable pub parse_special : (ℕ → ℕ) → Bool → Res SpecialHeader
parse_special buffer false = ok (record { offset = 8; has_pid = false; guest_pid = 0 })
parse_special buffer true =
    let special = read_u32 buffer 8 in
    if not (special / 2 ^ 1 % 16 == 0) || not (special / 2 ^ 5 % 16 == 0)
    then err not_implemented
    else if not (special % 2 == 0)
    then ok (record { offset = 20; has_pid = true; guest_pid = read_u64 buffer 12 })
    else ok (record { offset = 12; has_pid = false; guest_pid = 0 })

-- The raw data section of a Request, behind the special header.
unfoldable pub parse_data : (ℕ → ℕ) → SpecialHeader → ℕ → Res Request
parse_data buffer header num_data_words =
    let data_start = header.offset in
    let data_end = data_start + num_data_words * 4 in
    let cmif_offset = align_cmif data_start in
    if ltb command_buffer_bytes data_end
    then err memory_fault
    else if ltb data_end (cmif_offset + 16)
    then err memory_fault
    else if not (read_u32 buffer cmif_offset == sfci_magic)
    then err not_implemented
    else ok (record {
      type = request;
      command_id = read_u32 buffer (cmif_offset + 8);
      has_pid = header.has_pid;
      guest_pid = header.guest_pid;
      buffer = buffer;
      data_offset = some (cmif_offset + 16);
      data_size = data_end - (cmif_offset + 16);
    })

-- `out` of a Close message.
abbrev pub close_request : SpecialHeader → Request
close_request header = record {
  type = close;
  command_id = 0;
  has_pid = header.has_pid;
  guest_pid = header.guest_pid;
  buffer = λ _. 0;
  data_offset = none;
  data_size = 0;
}

-- `ipc_request_parse`
unfoldable pub ipc_request_parse : (ℕ → ℕ) → ℕ → Res Request
ipc_request_parse buffer buffer_size =
    if not (buffer_size == command_buffer_bytes)
    then err invalid_argument
    else let word0 = read_u32 buffer 0 in
      let word1 = read_u32 buffer 4 in
      let type = word0 % 2 ^ 16 in
      if type == 15 || leb 16 type
      then err not_implemented
      else if not (type == 4) && not (type == 2)
      then err not_implemented
      else if not (word0 / 2 ^ 16 % 16 == 0)
          || not (word0 / 2 ^ 20 % 16 == 0)
          || not (word0 / 2 ^ 24 % 16 == 0)
          || not (word0 / 2 ^ 28 % 16 == 0)
          || not (word1 / 2 ^ 10 % 16 == 0)
      then err not_implemented
      else elim (parse_special buffer (not (word1 / 2 ^ 31 % 2 == 0))) [
        | err code ↦ err code
        | ok header ↦
            if type == 2
            then ok (close_request header)
            else parse_data buffer header (word1 % 2 ^ 10)
      ]

-- The loop of `ipc_response_write`, from the byte `offset` on.
unfoldable pub write_handles : (ℕ → ℕ) → ℕ → List ℕ → ℕ → ℕ
write_handles buffer offset [] = buffer
write_handles buffer offset (h ∷ hs) = write_handles (write_u32 buffer offset h) (offset + 4) hs

-- The raw data section and the header words, for handles that end at `data_start`.
unfoldable pub write_data : (ℕ → ℕ) → Bool → ℕ → ℕ → ℕ → ℕ
write_data buffer has_special_header data_start result =
    let cmif_offset = align_cmif data_start in
    let a = write_u32 buffer cmif_offset sfco_magic in
    let b = write_u32 a (cmif_offset + 4) 0 in
    let c = write_u32 b (cmif_offset + 8) result in
    let d = write_u32 c (cmif_offset + 12) 0 in
    let e = write_u32 d 0 0 in
    write_u32 e 4 (32 / 4 % 2 ^ 10 + (if has_special_header then 2 ^ 31 else 0))

-- `ipc_response_write`, on a buffer that is cleared first.
unfoldable pub ipc_response_write : ℕ → Response → List ℕ → Res (ℕ → ℕ)
ipc_response_write buffer_size res out_handles =
    if not (buffer_size == command_buffer_bytes)
      || not (length out_handles == length res.out_objects)
    then err invalid_argument
    else let has_special_header = ltb 0 (length out_handles) in
      let buffer =
        if has_special_header
        then write_handles (write_u32 (λ _. 0) 8 (length out_handles * 2 ^ 5 % 2 ^ 32)) 12
            out_handles
        else (λ _. 0) in
      let data_start = if has_special_header then 12 + length out_handles * 4 else 8 in
      if ltb buffer_size (data_start + 32)
      then err invalid_argument
      else ok (write_data buffer has_special_header data_start res.result)
