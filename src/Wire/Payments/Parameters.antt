-- ===== src/Wire/Payments/Parameters.antt =====
-- The balances and parameters of src/channel/fixed_size_payment.rs, written and read.
use fork_perun_rs.Base.{ℕ, ◌<◌, ◌≡◌, arith, [], ◌∷◌, ok, unwrap, true, length, ◌==◌}
use fork_perun_rs.Abi.Bytes.{be_bytes, from_be-be_bytes, length-be_bytes}
use fork_perun_rs.External.{External, IsLawful, u256_bound}
use fork_perun_rs.Types.{Bytes}
use fork_perun_rs.Abi.Bytes.{flatten}
use fork_perun_rs.Abi.Spec.{abi_encode}
use fork_perun_rs.Payment.{params_value, Params, channel_id}
use fork_perun_rs.Payment.Laws.{IsShapedParams, channel_id-hash}
use fork_perun_rs.Messages.{ConversionError}
use fork_perun_rs.Wire.{try_bytes, fill, expect}
use fork_perun_rs.Wire.Perunwire
use fork_perun_rs.Wire.Payments.{
  zero_address, try_params, into_params, try_balance, into_balance, try_balances, into_balances,
}

-- Array lengths are compared by number.
pub try_bytes-sized : (n : ℕ) (b : Bytes) → length b ≡ n → try_bytes n b ≡ ok b
unfolding try_bytes
try_bytes-sized n b h = rw (test h)
  where
    test : length b ≡ n → (length b == n) ≡ true
    test e = ground arith

module _ (x : External) (lawful : IsLawful x) where
  read-write :
      (n : ℕ)
      → n < u256_bound
      → unwrap {E = ConversionError} (x.u256_from_big_endian (x.u256_to_big_endian n)) ≡ ok n
  read-write n h = rw (lawful.writes_big_endian n) (
      rw (lawful.reads_big_endian (be_bytes 32 n) (omega (arith, length-be_bytes 32 n)))
        (rw (from_be-be_bytes 32 n (omega (arith, h)))))

  try_balance-into_balance :
      (a b : ℕ)
      → a < u256_bound
      → b < u256_bound
      → try_balance x (into_balance x (a ∷ b ∷ [])) ≡ ok (a ∷ b ∷ [])
  unfolding try_balance into_balance fill
  try_balance-into_balance a b ha hb = rw (read-write a ha) (rw (read-write b hb))

  -- Balances of one asset and two participants are read as they were written.
  pub try_balances-into_balances :
      (a b : ℕ)
      → a < u256_bound
      → b < u256_bound
      → try_balances x (into_balances x ((a ∷ b ∷ []) ∷ [])) ≡ ok ((a ∷ b ∷ []) ∷ [])
  unfolding try_balances into_balances fill
  try_balances-into_balances a b ha hb = rw (try_balance-into_balance a b ha hb)

  -- Parameters for two participants are written without a panic, under the channel's id, and are
  -- read as they were but for the app, which is replaced by zeros.
  pub try_params-into_params :
      (p : Params)
      → IsShapedParams p
      → p.nonce < u256_bound
      → (w : Perunwire.Params) × (into_params {E = ConversionError} x p ≡ ok w)
        × (channel_id x p ≡ ok w.id)
        × (try_params x w ≡ ok (record p { app = zero_address }))
  unfolding into_params try_params expect fill
  try_params-into_params p shaped small = (
    record {
      id = x.keccak256 (flatten (abi_encode (params_value x p)));
      challenge_duration = p.challenge_duration;
      parts = p.participants;
      app = [];
      nonce = x.u256_to_big_endian p.nonce;
      ledger_channel = p.ledger_channel;
      virtual_channel = p.virtual_channel;
    },
    rw (channel_id-hash x lawful p shaped),
    channel_id-hash x lawful p shaped,
    rw shaped.two_participants (
        rw (try_bytes-sized 20 shaped.first shaped.first_size) (
          rw (try_bytes-sized 20 shaped.second shaped.second_size)
            (rw (read-write p.nonce small)))),
  )
