-- ===== src/Interaction/Status.antt =====
-- internal/interaction/status.go: opcodes, and statuses as errors.
use matter_cli.Prelude.{ℕ, if◌then◌else◌, ◌==◌, Option, none, some}

abbrev pub protocol_id : ℕ
protocol_id = 0x0001

abbrev pub opcode_status_response : ℕ
opcode_status_response = 0x01

abbrev pub opcode_read_request : ℕ
opcode_read_request = 0x02

abbrev pub opcode_subscribe_request : ℕ
opcode_subscribe_request = 0x03

abbrev pub opcode_subscribe_response : ℕ
opcode_subscribe_response = 0x04

abbrev pub opcode_report_data : ℕ
opcode_report_data = 0x05

abbrev pub opcode_write_request : ℕ
opcode_write_request = 0x06

abbrev pub opcode_write_response : ℕ
opcode_write_response = 0x07

abbrev pub opcode_invoke_request : ℕ
opcode_invoke_request = 0x08

abbrev pub opcode_invoke_response : ℕ
opcode_invoke_response = 0x09

abbrev pub opcode_timed_request : ℕ
opcode_timed_request = 0x0a

abbrev pub status_success : ℕ
status_success = 0x00

pub record StatusIb : Type 0 where
  pub status : ℕ
  pub cluster_status : Option ℕ

pub record StatusResponseMessage : Type 0 where
  pub status : ℕ

pub record StatusError : Type 0 where
  pub general_code : ℕ
  pub cluster_code : Option ℕ

unfoldable pub new_status_error : ℕ → Option ℕ → StatusError
new_status_error code cluster_code = record { general_code = code; cluster_code = cluster_code }

-- A nil error is `none`.
unfoldable pub status_from_ib : StatusIb → Option StatusError
status_from_ib ib =
    if ib.status == status_success
    then none
    else some (record { general_code = ib.status; cluster_code = ib.cluster_status })

unfoldable pub status_from_code : ℕ → Option StatusError
status_from_code code =
    if code == status_success
    then none
    else some (record { general_code = code; cluster_code = none })
