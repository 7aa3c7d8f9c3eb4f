-- ===== src/Proto/Info.antt =====
-- src/proto.c: `PONG`, `INFO` and `-ERR`.
use monoblok.Shared.{
  ℕ, ◌+◌, ◌-◌, ◌/◌, ◌%◌, Bool, true, ◌||◌, List, [], ◌∷◌, Bytes, ltb, ◌==◌, if◌then◌else◌, codes,
}
use monoblok.Buffer.{Buf, and_then, append, append_byte}
use monoblok.Proto.Number.{decimal}

pub hex_digit : ℕ → ℕ
hex_digit n = if ltb n 10 then b'0' + n else b'a' + (n - 10)

-- `mb_info`, its strings without the NUL, and the two macros of the build beside them.
pub record Info : Type 0 where
  pub server_id : Bytes
  pub host : Bytes
  pub client_ip : Bytes
  pub port : ℕ
  pub client_id : ℕ
  pub auth_required : Bool
  pub tls_required : Bool

module _ (alloc : ℕ → Bool) where
  -- One round of the loop of `append_json_string`.
  pub append_json_char : ℕ → Buf → Bool × Buf
  append_json_char c out =
      if c == b'"' || c == b'\\'
      then and_then (append_byte alloc out b'\\') (λ b. append_byte alloc b c)
      else if ltb c 0x20
      then and_then (append alloc out (codes "\\u00")) (λ b.
        and_then (append_byte alloc b (hex_digit (c / 16)))
          (λ d. append_byte alloc d (hex_digit (c % 16))))
      else append_byte alloc out c

  pub append_json_chars : Bytes → Buf → Bool × Buf
  append_json_chars [] out = (true, out)
  append_json_chars (c ∷ s) out = and_then (append_json_char c out) (append_json_chars s)

  pub append_json_string : Bytes → Buf → Bool × Buf
  append_json_string s out =
      and_then (append_byte alloc out b'"')
        (λ b. and_then (append_json_chars s b) (λ d. append_byte alloc d b'"'))

  pub append_if : Bool → Bytes → Buf → Bool × Buf
  append_if test s out = if test then append alloc out s else (true, out)

  -- A chain of calls joined by `&&`.
  pub in_turn : List (Buf → Bool × Buf) → Buf → Bool × Buf
  in_turn [] out = (true, out)
  in_turn (f ∷ fs) out = and_then (f out) (in_turn fs)

  pub lit : Bytes → Buf → Bool × Buf
  lit s out = append alloc out s

  pub write_pong : Buf → Bool × Buf
  write_pong out = append alloc out (codes "PONG\r\n")

  -- `version` and `build` are the macros `MB_VERSION` and `MB_BUILD_INFO`.
  pub write_info : Bytes → Bytes → Info → Buf → Bool × Buf
  write_info version build info = in_turn (
      lit (codes "INFO {\"server_id\":")
      ∷ append_json_string info.server_id
      ∷ lit (codes ",\"server_name\":")
      ∷ append_json_string info.server_id
      ∷ lit (codes ",\"version\":")
      ∷ append_json_string version
      ∷ lit (codes ",\"proto\":1,\"headers\":false,\"max_payload\":1048576")
      ∷ append_if info.auth_required (codes ",\"auth_required\":true")
      ∷ append_if info.tls_required (codes ",\"tls_required\":true")
      ∷ lit (codes ",\"host\":")
      ∷ append_json_string info.host
      ∷ lit (codes ",\"port\":")
      ∷ lit (decimal info.port)
      ∷ lit (codes ",\"client_id\":")
      ∷ lit (decimal info.client_id)
      ∷ lit (codes ",\"client_ip\":")
      ∷ append_json_string info.client_ip
      ∷ lit (codes ",\"build\":")
      ∷ append_json_string build
      ∷ lit (codes "}\r\n")
      ∷ [])

  pub write_err : Bytes → Buf → Bool × Buf
  write_err msg = in_turn (lit (codes "-ERR '") ∷ lit msg ∷ lit (codes "'\r\n") ∷ [])
