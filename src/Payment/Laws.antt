-- ===== src/Payment/Laws.antt =====
-- src/channel/fixed_size_payment.rs: the parameters and states of a channel, and their hashes.
use fork_perun_rs.Base.{
  ℕ, ◌+◌, ◌<◌, ◌^◌, true, false, [], ◌∷◌, ◌++◌, ok, ◌≡◌, ◌∙◌, refl, ap, subst, arith, length,
  replicate, length-append, lt→ltb,
}
use fork_perun_rs.External.{External, IsLawful}
use fork_perun_rs.Types.{Hash, Address, to_hash}
use fork_perun_rs.Abi.Bytes.{flatten, length-be_bytes}
use fork_perun_rs.Abi.Value.{items}
use fork_perun_rs.Abi.Spec.{is_encodable, is_dynamic, abi_encode, size, encode}
use fork_perun_rs.Abi.Passes.{head_bytes, tail_bytes}
use fork_perun_rs.Abi.Sizes.{bytes-size}
use fork_perun_rs.Abi.Refinement.{limit}
use fork_perun_rs.Abi.Correct.{to_writer-abi_encode}
use fork_perun_rs.Payment.{
  Params, Allocation, State, u64_bound, params_value, state_value, allocation_value, asset_value,
  balances_value, channel_id, new_state,
}

-- One asset and two participants: the arrays of a payment channel have these lengths.
pub record IsShaped (s : State) : Type 0 where
  pub id_size : length s.id ≡ 32
  pub version_fits : s.version < u64_bound
  pub holder : Address
  pub holder_size : length holder ≡ 20
  pub one_asset : s.outcome.assets ≡ record { holder = holder } ∷ []
  pub own : ℕ
  pub other : ℕ
  pub two_balances : s.outcome.balances ≡ (own ∷ other ∷ []) ∷ []

-- Two participants.
pub record IsShapedParams (p : Params) : Type 0 where
  pub duration_fits : p.challenge_duration < u64_bound
  pub first : Address
  pub first_size : length first ≡ 20
  pub second : Address
  pub second_size : length second ≡ 20
  pub two_participants : p.participants ≡ first ∷ second ∷ []
  pub app_size : length p.app ≡ 20

module _ (x : External) (lawful : IsLawful x) where
  pub length-u256 : (n : ℕ) → length (x.u256_to_big_endian n) ≡ 32
  length-u256 n = rw (lawful.writes_big_endian n) (length-be_bytes 32 n)

  state-encodable : (s : State) → IsShaped s → is_encodable (state_value x s) ≡ true
  unfolding state_value is_encodable items balances_value allocation_value asset_value
  state-encodable s shaped = rw shaped.one_asset (
      rw shaped.two_balances
        (rw (lt→ltb s.version (256 ^ 8) (omega (arith, shaped.version_fits))) refl))

  state-size : (s : State) → IsShaped s → size (encode (state_value x s)) < limit
  unfolding state_value head_bytes tail_bytes items balances_value allocation_value asset_value
      is_dynamic
  state-size s shaped = subst (λ n. n < limit) (bytes-size (state_value x s)) bounded
    where
      bounded : head_bytes (state_value x s) + tail_bytes (state_value x s) < limit
      bounded = rw shaped.one_asset (
          rw shaped.two_balances (
            rw shaped.id_size (
              rw (length-append (replicate 12 0) shaped.holder) (
                rw shaped.holder_size
                  (rw (length-u256 shaped.own) (rw (length-u256 shaped.other) (omega arith)))))))

  -- Under lawful crates the hash of the state of a payment channel is never an error, and is the
  -- Keccak-256 hash of its ABI encoding.
  pub state-hash :
      (s : State)
      → IsShaped s
      → to_hash x (state_value x s) ≡ ok (x.keccak256 (flatten (abi_encode (state_value x s))))
  unfolding to_hash
  state-hash s shaped =
      rw (to_writer-abi_encode (state_value x s) (state-encodable s shaped) (state-size s shaped))

  params-encodable : (p : Params) → IsShapedParams p → is_encodable (params_value x p) ≡ true
  unfolding params_value is_encodable items
  params-encodable p shaped =
      rw shaped.two_participants
        (rw (lt→ltb p.challenge_duration (256 ^ 8) (omega (arith, shaped.duration_fits))) refl)

  pub address-size : (a : Address) → length a ≡ 20 → length (replicate 12 0 ++ a) ≡ 32
  address-size a h = length-append (replicate 12 0) a ∙ rw h

  params-size : (p : Params) → IsShapedParams p → size (encode (params_value x p)) < limit
  unfolding params_value head_bytes tail_bytes items is_dynamic
  params-size p shaped = subst (λ n. n < limit) (bytes-size (params_value x p)) bounded
    where
      bounded : head_bytes (params_value x p) + tail_bytes (params_value x p) < limit
      bounded = rw shaped.two_participants (
          rw (length-u256 p.nonce) (
            rw (address-size p.app shaped.app_size) (
              rw (address-size shaped.first shaped.first_size)
                (rw (address-size shaped.second shaped.second_size) (omega arith)))))

  -- The channel's id is never an error ("should be impossible" in the source): it is the hash of
  -- the ABI encoding of the parameters.
  pub channel_id-hash :
      (p : Params)
      → IsShapedParams p
      → channel_id x p ≡ ok (x.keccak256 (flatten (abi_encode (params_value x p))))
  unfolding channel_id to_hash
  channel_id-hash p shaped =
      rw
        (to_writer-abi_encode (params_value x p) (params-encodable p shaped) (params-size p shaped))

  -- The initial state of a channel for two participants exists, is version 0 and not final, has
  -- the channel's id and the allocation that was agreed on, and can be hashed.
  pub new_state-IsShaped :
      (p : Params) (init : Allocation) (a b : ℕ) (holder : Address)
      → IsShapedParams p
      → length holder ≡ 20
      → init ≡ record { assets = record { holder = holder } ∷ []; balances = (a ∷ b ∷ []) ∷ [] }
      → (s : State) × (new_state x p init ≡ ok s)
        × (channel_id x p ≡ ok s.id)
        × (s.version ≡ 0)
        × (s.is_final ≡ false)
        × (s.outcome ≡ init)
        × IsShaped s
  unfolding new_state
  new_state-IsShaped p init a b holder shaped size two = (
    record { id = id; version = 0; outcome = init; is_final = false },
    rw (channel_id-hash p shaped),
    channel_id-hash p shaped,
    refl,
    refl,
    refl,
    record {
      id_size = lawful.keccak_size _;
      version_fits = omega arith;
      holder = holder;
      holder_size = size;
      one_asset = ap (λ o. o.assets) two;
      own = a;
      other = b;
      two_balances = ap (λ o. o.balances) two;
    },
  )
    where
      id : Hash
      id = x.keccak256 (flatten (abi_encode (params_value x p)))
