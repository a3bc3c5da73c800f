-- ===== src/Daemon/Ring/Packing.antt =====
-- ring.h: the user data of an entry names its operation and its connection.
use mod_socket_handoff.Base.{
  ℕ, ◌+◌, ◌*◌, ◌/◌, ◌%◌, ◌^◌, ◌<◌, ◌≡◌, refl, ap, ◌∙◌, Option, some, bit_or, arith,
}
use mod_socket_handoff.Base.Bits.{bit_or-shift}
use mod_socket_handoff.Daemon.Ring.{
  Op, accept, recv_fd, write, timeout, cancel, eventfd, curl_poll, curl_timeout, poll_cancel, code,
  op_of, ring_pack_data, ring_unpack_data,
}

code-lt : (op : Op) → code op < 10
code-lt accept = omega arith
code-lt recv_fd = omega arith
code-lt write = omega arith
code-lt timeout = omega arith
code-lt cancel = omega arith
code-lt eventfd = omega arith
code-lt curl_poll = omega arith
code-lt curl_timeout = omega arith
code-lt poll_cancel = omega arith

op_of-code : (op : Op) → op_of (code op) ≡ some op
op_of-code accept = refl
op_of-code recv_fd = refl
op_of-code write = refl
op_of-code timeout = refl
op_of-code cancel = refl
op_of-code eventfd = refl
op_of-code curl_poll = refl
op_of-code curl_timeout = refl
op_of-code poll_cancel = refl

pack-eq : (op : Op) (id : ℕ) → id < 2 ^ 32 → ring_pack_data op id ≡ code op * 2 ^ 32 + id
unfolding ring_pack_data
pack-eq op id h =
    ap (λ (n : ℕ). bit_or n id) {y = code op * 2 ^ 32} (omega (arith, code-lt op))
    ∙ bit_or-shift 32 (code op) id h

-- What `ring_pack_data` packs, `ring_unpack_data` gives back, for every operation and every identifier
-- of 32 bits; the packed word has 64 bits.
pub unpack-pack :
    (op : Op) (id : ℕ)
    → id < 2 ^ 32
    → (ring_unpack_data (ring_pack_data op id) ≡ (some op, id)) × (ring_pack_data op id < 2 ^ 64)
unfolding ring_unpack_data
unpack-pack op id h =
    let c = code-lt op in
    (
      ap (λ (n : ℕ). (op_of (n / 2 ^ 32), n % 2 ^ 32)) (pack-eq op id h)
          ∙ ap (λ (n : ℕ). (op_of n, (code op * 2 ^ 32 + id) % 2 ^ 32))
              {x = (code op * 2 ^ 32 + id) / 2 ^ 32} {y = code op} (omega arith)
          ∙ ap (λ (n : ℕ). (op_of (code op), n)) {x = (code op * 2 ^ 32 + id) % 2 ^ 32} {y = id}
              (omega arith)
          ∙ ap (λ (o : Option Op). (o, id)) (op_of-code op),
      omega (arith, pack-eq op id h),
    )
