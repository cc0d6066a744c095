-- ===== src/Validate/Schema.antt =====
-- What `validate` accepts: the member rules of the wire document, stated without its tests.
use mango_protocol.Common.{
  ℕ, ◌≤◌, ◌≡◌, refl, ◌↔◌, Text, false, length, Option, none, some, ok, err, ◌>>◌, arith,
}
use mango_protocol.Libs.{Libs}
use mango_protocol.Wire.Frame.{Frame, Hello, Limits, ErrorPayload, Close}
use mango_protocol.Validate.Grammar.{max_name_chars, max_code_chars, ends_with, usize_max}
use mango_protocol.Validate.Checks.{
  Checked, check_length, check_id, check_method_name, check_range, check_limits, check_major,
  check_role, validate_hello, check_code, validate_error_payload, check_stream_id, check_reason,
  validate_close, validate,
}
use mango_protocol.Validate.Names.{
  MethodName, ErrorCode, RolePattern, is_valid_method_name_iff, is_valid_role_iff,
  is_valid_error_code_iff,
}

abbrev pub Sized : ℕ → ℕ → Text → Type 0
Sized lo hi t = (lo ≤ length t) × (length t ≤ hi)

abbrev pub Name : Text → Type 0
Name t = (length t ≤ max_name_chars) × MethodName t

-- A member that is absent, or that satisfies the predicate.
abbrev pub IfPresent {ℓ} : {A : Type ℓ} → (A → Type 0) → Option A → Type 0
IfPresent P none = Unit {0}
IfPresent P (some a) = P a

abbrev pub Between : ℕ → ℕ → ℕ → Type 0
Between lo hi n = (lo ≤ n) × (n ≤ hi)

pub record ValidHello {L : Libs} (h : Hello L) : Type 0 where
  pub major : 1 ≤ h.protocol.major
  pub name : Sized 1 128 h.peer.name
  pub version : Sized 1 128 h.peer.version
  pub role :
      (length h.peer.role ≤ 64) × RolePattern h.peer.role × (ends_with b'-' h.peer.role ≡ false)
  pub limits :
      IfPresent
        (λ (l : Limits).
          IfPresent (Between 4096 2147483647) l.max_frame_bytes
          × IfPresent (Between 1 2147483647) l.max_in_flight)
        h.limits

abbrev pub ValidFrame : {L : Libs} → Frame L → Type 0
ValidFrame (Frame.hello h) = ValidHello h
ValidFrame (Frame.req r) = Sized 1 256 r.id × Name r.method
ValidFrame (Frame.res r) = Sized 1 256 r.id
ValidFrame (Frame.err e) =
    Sized 1 256 e.id
    × ((length e.error.code ≤ 64) × ErrorCode e.error.code)
    × Sized 1 usize_max e.error.message
ValidFrame (Frame.evt e) = Name e.topic × IfPresent (Sized 1 256) e.stream_id
ValidFrame (Frame.cancel c) = Sized 1 256 c.id
ValidFrame Frame.ping = Unit {0}
ValidFrame Frame.pong = Unit {0}
ValidFrame (Frame.close c) = Between 4000 4999 c.code × IfPresent (Sized 0 1024) c.reason

pub seq_iff :
    {P Q : Type 0} (m k : Checked)
    → (m ≡ ok tt) ↔ P
    → (k ≡ ok tt) ↔ Q
    → ((m >> k) ≡ ok tt) ↔ (P × Q)
seq_iff (ok tt) k p q = (λ h. (p.0 refl, q.0 h), λ h. q.1 h.1)
seq_iff (err e) k p q = (λ h. cc, λ h. cc (p.1 h.0))

module _ ⦃L : Libs⦄ where
  length_iff :
      (field value : Text) (lo hi : ℕ)
      → (check_length field value lo hi ≡ ok tt) ↔ Sized lo hi value
  unfolding check_length
  length_iff field value lo hi = (λ h. ground arith, λ h. ground arith)

  Name-iff : (field value : Text) → (check_method_name field value ≡ ok tt) ↔ Name value
  unfolding check_method_name
  Name-iff field value =
      let test = is_valid_method_name_iff value in
      (λ h. test.0 (ground arith), λ h. ground (arith, test.1 h))

  range_iff :
      (field : Text) (value : Option ℕ) (lo hi : ℕ)
      → (check_range field value lo hi ≡ ok tt) ↔ IfPresent (Between lo hi) value
  unfolding check_range
  range_iff field none lo hi = (λ h. tt, λ h. refl)
  range_iff field (some value) lo hi = (λ h. ground arith, λ h. ground arith)

  limits_iff :
      (limits : Option Limits)
      → (check_limits limits ≡ ok tt)
        ↔ IfPresent
            (λ (l : Limits).
              IfPresent (Between 4096 2147483647) l.max_frame_bytes
              × IfPresent (Between 1 2147483647) l.max_in_flight)
            limits
  unfolding check_limits
  limits_iff none = (λ h. tt, λ h. refl)
  limits_iff (some l) =
      seq_iff (check_range _ l.max_frame_bytes 4096 2147483647)
        (check_range _ l.max_in_flight 1 2147483647) (range_iff _ l.max_frame_bytes _ _)
        (range_iff _ l.max_in_flight _ _)

  role_iff :
      (role : Text)
      → (check_role role ≡ ok tt)
        ↔ ((length role ≤ max_code_chars) × RolePattern role × (ends_with b'-' role ≡ false))
  unfolding check_role
  role_iff role =
      let test = is_valid_role_iff role in
      (λ h. test.0 (ground arith), λ h. ground (arith, test.1 h))

  code_iff :
      (field code : Text)
      → (check_code field code ≡ ok tt) ↔ ((length code ≤ max_code_chars) × ErrorCode code)
  unfolding check_code
  code_iff field code =
      let test = is_valid_error_code_iff code in
      (λ h. test.0 (ground arith), λ h. ground (arith, test.1 h))

  major_iff : (major : ℕ) → (check_major major ≡ ok tt) ↔ (1 ≤ major)
  unfolding check_major
  major_iff major = (λ h. ground arith, λ h. ground arith)

  hello_iff : (h : Hello L) → (validate_hello h ≡ ok tt) ↔ ValidHello h
  unfolding validate_hello
  hello_iff h =
      let limits = limits_iff h.limits in
      let role = seq_iff _ _ (role_iff h.peer.role) limits in
      let version = seq_iff _ _ (length_iff _ h.peer.version 1 128) role in
      let name = seq_iff _ _ (length_iff _ h.peer.name 1 128) version in
      let all = seq_iff _ _ (major_iff h.protocol.major) name in
      (
        λ e.
            let p = all.0 e in
            record {
              major = p.0;
              name = p.1.0;
              version = p.1.1.0;
              role = p.1.1.1.0;
              limits = p.1.1.1.1;
            },
        λ v. all.1 (v.major, (v.name, (v.version, (v.role, v.limits)))),
      )

  payload_iff :
      (field : Text) (p : ErrorPayload L)
      → (validate_error_payload field p ≡ ok tt)
        ↔ (((length p.code ≤ 64) × ErrorCode p.code) × Sized 1 usize_max p.message)
  unfolding validate_error_payload
  payload_iff field p = seq_iff _ _ (code_iff field p.code) (length_iff _ p.message 1 usize_max)

  stream_id_iff : (o : Option Text) → (check_stream_id o ≡ ok tt) ↔ IfPresent (Sized 1 256) o
  unfolding check_stream_id
  stream_id_iff none = (λ h. tt, λ h. refl)
  stream_id_iff (some t) = length_iff _ t 1 256

  reason_iff : (o : Option Text) → (check_reason o ≡ ok tt) ↔ IfPresent (Sized 0 1024) o
  unfolding check_reason
  reason_iff none = (λ h. tt, λ h. refl)
  reason_iff (some t) = length_iff _ t 0 1024

  close_iff :
      (c : Close)
      → (validate_close c ≡ ok tt) ↔ (Between 4000 4999 c.code × IfPresent (Sized 0 1024) c.reason)
  unfolding validate_close
  close_iff c =
      let reason = reason_iff c.reason in
      (λ h. (ground arith, reason.0 (ground arith)), λ h. ground (arith, reason.1 h.1))

  -- `validate` passes exactly the frames whose members keep these rules, each where the member is
  -- present: the numbers and the lengths are in their ranges, method names, topics and error codes
  -- match their patterns, and a role matches its pattern and does not end with a hyphen.
  pub validate_iff : (f : Frame L) → (validate f ≡ ok tt) ↔ ValidFrame f
  unfolding validate check_id
  validate_iff (Frame.hello h) = hello_iff h
  validate_iff (Frame.req r) =
      seq_iff (check_id _ r.id) _ (length_iff _ r.id 1 256) (Name-iff _ r.method)
  validate_iff (Frame.res r) = length_iff _ r.id 1 256
  validate_iff (Frame.err e) =
      let all = seq_iff _ _ (length_iff _ e.id 1 256) (payload_iff _ e.error) in
      (λ h. let p = all.0 h in (p.0, p.1.0, p.1.1), λ v. all.1 (v.0, (v.1, v.2)))
  validate_iff (Frame.evt e) = seq_iff _ _ (Name-iff _ e.topic) (stream_id_iff e.stream_id)
  validate_iff (Frame.cancel c) = length_iff _ c.id 1 256
  validate_iff Frame.ping = (λ h. tt, λ h. refl)
  validate_iff Frame.pong = (λ h. tt, λ h. refl)
  validate_iff (Frame.close c) = close_iff c
