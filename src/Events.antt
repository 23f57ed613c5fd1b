-- ===== src/Events.antt =====
-- crates/decoder/src/events.rs: `decode_log` and its four decoders. What `sol!` and alloy make of the
-- event declarations (the topics, the decoding of the raw log) and their display of an address are
-- parameters; a 256-bit topic is a number. An integer of an event is exact as a `BigDecimal`, and an
-- `int24` fits an `i32`, so that `bd_from_str` and `i32_from_str` do not fail on them.
pub mod Amounts
use defi_tx_indexer.Prelude.{
  ℕ, suc, Option, none, some, List, [], ◌∷◌, Text, codes, ◌==◌, if◌then◌else◌, ℤ, pos, negsuc,
  unsigned_abs,
}
use defi_tx_indexer.Classifier.{to_lowercase}
use defi_tx_indexer.Db.Rows.{DateTime}

-- The fields of the events that `sol!` declares.
pub record Swap : Type 0 where
  pub sender : ℕ
  pub recipient : ℕ
  pub amount0 : ℤ
  pub amount1 : ℤ
  pub sqrt_price_x96 : ℕ
  pub liquidity : ℕ
  pub tick : ℤ

-- `Mint` and `Burn`, but for the sender of a `Mint`.
pub record Liquidity : Type 0 where
  pub owner : ℕ
  pub tick_lower : ℤ
  pub tick_upper : ℤ
  pub amount : ℕ
  pub amount0 : ℕ
  pub amount1 : ℕ

pub record Transfer : Type 0 where
  pub from : ℕ
  pub to : ℕ
  pub value : ℕ

pub record Abi : Type 0 where
  pub lower_other : ℕ → Text
  pub show_address : ℕ → Text
  pub swap_topic : ℕ
  pub mint_topic : ℕ
  pub burn_topic : ℕ
  pub transfer_topic : ℕ
  -- `decode_raw_log` of each event, on the topics and the bytes
  pub decode_raw_swap : List ℕ → List ℕ → Option Swap
  pub decode_raw_mint : List ℕ → List ℕ → Option Liquidity
  pub decode_raw_burn : List ℕ → List ℕ → Option Liquidity
  pub decode_raw_transfer : List ℕ → List ℕ → Option Transfer

pub record DecodedSwap : Type 0 where
  pub pool_address : Text
  pub tx_hash : Text
  pub sender : Text
  pub recipient : Text
  pub amount0 : ℤ
  pub amount1 : ℤ
  pub amount_in : ℤ
  pub amount_out : ℤ
  pub sqrt_price_x96 : ℤ
  pub liquidity : ℤ
  pub tick : ℤ
  pub log_index : ℕ
  pub timestamp : DateTime

pub record DecodedLiquidity : Type 0 where
  pub event_type : Text
  pub pool_address : Text
  pub tx_hash : Text
  pub provider : Text
  pub token0_amount : ℤ
  pub token1_amount : ℤ
  pub tick_lower : ℤ
  pub tick_upper : ℤ
  pub liquidity : ℤ
  pub log_index : ℕ
  pub timestamp : DateTime

pub record DecodedTransfer : Type 0 where
  pub tx_hash : Text
  pub token_address : Text
  pub from_addr : Text
  pub to_addr : Text
  pub amount : ℤ
  pub log_index : ℕ
  pub timestamp : DateTime

pub data DecodedEvent : Type 0 where
  swap : DecodedSwap → DecodedEvent
  liquidity : DecodedLiquidity → DecodedEvent
  transfer : DecodedTransfer → DecodedEvent

-- The errors that `decode_log` has.
pub data DecodeError : Type 0 where
  unknown_topic : ℕ → DecodeError
  abi_decode : DecodeError
  missing_field : Text → DecodeError

pub data Decoding : Type 0 where
  ok : DecodedEvent → Decoding
  err : DecodeError → Decoding

-- The inflow and the outflow of a swap.
unfoldable pub flows : ℤ → ℤ → ℤ × ℤ
flows (pos a) amount1 = (pos a, pos (unsigned_abs amount1))
flows (negsuc a) amount1 = (amount1, pos (suc a))

module _ (abi : Abi) (pool_address tx_hash : Text) (log_index : ℕ) (timestamp : DateTime) where
  abbrev lower_address : ℕ → Text
  lower_address a = to_lowercase abi.lower_other (abi.show_address a)

  unfoldable pub decoded_swap : Option Swap → Decoding
  unfolding flows
  decoded_swap none = err abi_decode
  decoded_swap (some e) =
      let (amount_in, amount_out) = flows e.amount0 e.amount1 in
      ok (
        swap (record {
          pool_address = pool_address;
          tx_hash = tx_hash;
          sender = lower_address e.sender;
          recipient = lower_address e.recipient;
          amount0 = e.amount0;
          amount1 = e.amount1;
          amount_in = amount_in;
          amount_out = amount_out;
          sqrt_price_x96 = pos e.sqrt_price_x96;
          liquidity = pos e.liquidity;
          tick = e.tick;
          log_index = log_index;
          timestamp = timestamp;
        }))

  -- `decode_mint` and `decode_burn` differ in the type that they write.
  unfoldable pub decoded_liquidity : Text → Option Liquidity → Decoding
  decoded_liquidity event_type none = err abi_decode
  decoded_liquidity event_type (some e) = ok (
      liquidity (record {
        event_type = event_type;
        pool_address = pool_address;
        tx_hash = tx_hash;
        provider = lower_address e.owner;
        token0_amount = pos e.amount0;
        token1_amount = pos e.amount1;
        tick_lower = e.tick_lower;
        tick_upper = e.tick_upper;
        liquidity = pos e.amount;
        log_index = log_index;
        timestamp = timestamp;
      }))

  unfoldable pub decoded_transfer : Option Transfer → Decoding
  decoded_transfer none = err abi_decode
  decoded_transfer (some e) = ok (
      transfer (record {
        tx_hash = tx_hash;
        token_address = pool_address;
        from_addr = lower_address e.from;
        to_addr = lower_address e.to;
        amount = pos e.value;
        log_index = log_index;
        timestamp = timestamp;
      }))

  unfoldable pub decode_log : List ℕ → List ℕ → Decoding
  unfolding decoded_swap decoded_liquidity decoded_transfer
  decode_log [] log_data = err (missing_field (codes "topic0"))
  decode_log (topic0 ∷ topics) log_data =
      if topic0 == abi.swap_topic
      then decoded_swap (abi.decode_raw_swap (topic0 ∷ topics) log_data)
      else if topic0 == abi.mint_topic
      then decoded_liquidity (codes "MINT") (abi.decode_raw_mint (topic0 ∷ topics) log_data)
      else if topic0 == abi.burn_topic
      then decoded_liquidity (codes "BURN") (abi.decode_raw_burn (topic0 ∷ topics) log_data)
      else if topic0 == abi.transfer_topic
      then decoded_transfer (abi.decode_raw_transfer (topic0 ∷ topics) log_data)
      else err (unknown_topic topic0)
