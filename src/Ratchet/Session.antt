-- ===== src/Ratchet/Session.antt =====
-- crypto/double-ratchet/src/lib.rs: `DoubleRatchet`, its handshake, `send` and `recv`. Each call
-- takes the randomness that it may draw; a call that fails returns the state it leaves.
use onion_network.Base.{
  ℕ, zero, suc, ◌+◌, ◌-◌, ◌%◌, ◌^◌, Bool, true, false, Option, none, some, List, [], ◌∷◌, ◌++◌,
  length, drop, ltb, leb, ◌==◌, if◌then◌else◌, ◌&&◌,
}
use onion_network.Codec.Sum.{Result, ok, err}
use onion_network.Ratchet.Chain.{
  Primitives, Chain, from_secret, new_init, new_guarding, next_sc, next_rk, xor, u32_max,
}

pub data RecvError : Type 0 where
  missing_message : RecvError
  decapsulation : RecvError
  invalid_state : RecvError

pub record MessageId : Type 0 where
  pub step : ℕ
  pub sub_step : ℕ

pub record Kyber : Type 0 where
  pub public : ℕ
  pub cp : ℕ

pub record MessageHeader : Type 0 where
  pub id : MessageId
  pub prev_sub_count : ℕ
  pub kyber : Option Kyber
  pub x25519 : ℕ

pub record InitiatiorKey : Type 0 where
  pub x25519 : ℕ
  pub kyber : ℕ

pub record DoubleRatchet : Type 0 where
  pub root : Chain
  pub sender : Chain
  pub receiver_hash : ℕ
  pub receiver : Chain
  pub sender_hash : ℕ
  pub prev_sub_count : ℕ
  pub kyber : ℕ
  pub cp : ℕ
  pub ss : ℕ
  pub x25519 : ℕ
  pub missing_messages : List (MessageId × ℕ)

-- What a call draws from its generator: a secret key, a seed, and what an encapsulation uses.
pub record Fresh : Type 0 where
  pub x25519 : ℕ
  pub kyber : ℕ
  pub encapsulation : ℕ

abbrev pub max_kept_missing_messages : ℕ
max_kept_missing_messages = 5

abbrev pub kyber_period : ℕ
kyber_period = 35

abbrev pub Outcome : Type 0
Outcome = Result ℕ RecvError

abbrev pub same_id : MessageId → MessageId → Bool
same_id a b = (a.step == b.step) && (a.sub_step == b.sub_step)

-- The first entry with the identity, and the others.
abbrev pub take_missing : MessageId → List (MessageId × ℕ) → Option (ℕ × List (MessageId × ℕ))
take_missing id [] = none
take_missing id (kept ∷ rest) =
    let later = take_missing id rest in
    if same_id (kept.0) id
    then some (kept.1, rest)
    else elim later [ none ↦ none | some (secret, others) ↦ some (secret, kept ∷ others) ]

module _ (prim : Primitives) where
  unfoldable pub recipient : ℕ → InitiatiorKey → Fresh → DoubleRatchet × ℕ
  recipient secret init rng =
      let root = from_secret secret in
      let first = next_sc prim root in
      let second = next_sc prim (first.1) in
      let receiver = new_init (second.0) in
      let sealed = prim.encapsulate init.kyber rng.encapsulation in
      (
        record {
          root = second.1;
          sender = new_guarding (prim.dh rng.x25519 init.x25519);
          receiver_hash = prim.hash receiver.root;
          receiver = receiver;
          sender_hash = prim.hash root.root;
          prev_sub_count = 0;
          kyber = rng.kyber;
          cp = sealed.0;
          ss = sealed.1;
          x25519 = rng.x25519;
          missing_messages = [];
        },
        first.0,
      )

  unfoldable pub sender : ℕ → Fresh → DoubleRatchet × InitiatiorKey × ℕ
  sender secret rng =
      let root = from_secret secret in
      let first = next_sc prim root in
      let second = next_sc prim (first.1) in
      let sender = new_init (second.0) in
      (
        record {
          root = second.1;
          sender = sender;
          receiver_hash = prim.hash root.root;
          receiver = record { step = 0; root = 0 };
          sender_hash = prim.hash sender.root;
          prev_sub_count = 0;
          kyber = rng.kyber;
          cp = 0;
          ss = 0;
          x25519 = rng.x25519;
          missing_messages = [];
        },
        record { x25519 = prim.public_of rng.x25519; kyber = prim.kyber_public rng.kyber },
        first.0,
      )

  unfoldable pub find_missing_message : MessageHeader → DoubleRatchet → Outcome × DoubleRatchet
  find_missing_message message d = elim (take_missing message.id d.missing_messages) [
    | none ↦ (err missing_message, d)
    | some (secret, others) ↦ (ok secret, record d { missing_messages = others })
  ]

  -- A round of the loop: the oldest entry makes room where there is none.
  unfoldable pub keep_one : ℕ → DoubleRatchet → DoubleRatchet
  keep_one sub_step d =
      let key = next_sc prim d.receiver in
      let room =
        if leb max_kept_missing_messages (length d.missing_messages)
        then drop 1 d.missing_messages
        else d.missing_messages in
      record d {
        receiver = key.1;
        missing_messages =
            room ++ ((record { step = (d.root).step; sub_step = sub_step }, key.0) ∷ []);
      }

  unfoldable pub keep_missing : ℕ → ℕ → DoubleRatchet → DoubleRatchet
  keep_missing zero sub_step d = d
  keep_missing (suc rounds) sub_step d = keep_missing rounds (sub_step + 1) (keep_one sub_step d)

  -- An error leaves the state as it was.
  unfoldable pub add_missing_message : ℕ → DoubleRatchet → Result DoubleRatchet RecvError
  add_missing_message latest_index d =
      if ltb latest_index (d.receiver).step
      then err invalid_state
      else ok (keep_missing (latest_index - (d.receiver).step) (d.receiver).step d)

  -- Where the header has a part for Kyber, its secret goes into the input of the receiver.
  unfoldable pub renew_kyber :
      Option Kyber → ℕ → Fresh → DoubleRatchet → Result (ℕ × DoubleRatchet) RecvError
  renew_kyber none receiver_input rng d = ok (receiver_input, d)
  renew_kyber (some kyb) receiver_input rng d =
      let sealed = prim.encapsulate kyb.public rng.encapsulation in
      elim (prim.decapsulate kyb.cp d.kyber) [
        | none ↦ err decapsulation
        | some sec ↦
            ok
              (xor receiver_input sec, record d { kyber = rng.kyber; cp = sealed.0; ss = sealed.1 })
      ]

  -- The root takes a step, and the sender waits for the next message to be sent.
  unfoldable pub step_root : ℕ → ℕ → DoubleRatchet → DoubleRatchet
  step_root public receiver_input d =
      let next = next_rk prim receiver_input d.root in
      record d {
        prev_sub_count = (d.sender).step;
        root = next.1;
        receiver = from_secret (next.0);
        receiver_hash = prim.hash (next.0);
        sender = new_guarding (prim.dh d.x25519 public);
      }

  -- `recv` on a header that is ahead of the root. The fresh X25519 key stays where the
  -- decapsulation fails.
  unfoldable pub turn :
      MessageHeader → Fresh → DoubleRatchet → Result DoubleRatchet (RecvError × DoubleRatchet)
  turn message rng d = elim (add_missing_message message.prev_sub_count d) [
    | err e ↦ err (e, d)
    | ok kept ↦
        let receiver_input = prim.dh kept.x25519 message.x25519 in
        let fresh = record kept { x25519 = rng.x25519 } in
        elim (renew_kyber message.kyber receiver_input rng fresh) [
          | err e ↦ err (e, fresh)
          | ok (input, renewed) ↦ ok (step_root message.x25519 input renewed)
        ]
  ]

  unfoldable pub recv_current : MessageHeader → DoubleRatchet → Outcome × DoubleRatchet
  recv_current message d = elim (add_missing_message (message.id).sub_step d) [
    | err e ↦ (err e, d)
    | ok kept ↦
        let key = next_sc prim kept.receiver in (ok (key.0), record kept { receiver = key.1 })
  ]

  unfoldable pub recv : MessageHeader → Fresh → DoubleRatchet → Outcome × DoubleRatchet
  recv message rng d =
      if ltb (message.id).step (d.root).step
      then find_missing_message message d
      else if (message.id).step == (d.root).step
      then if ltb (message.id).sub_step (d.receiver).step
        then find_missing_message message d
        else recv_current message d
      else elim (turn message rng d) [
        | err (e, left) ↦ (err e, left)
        | ok turned ↦ recv_current message turned
      ]

  -- Where the sender waits, the root takes a step before the header is made.
  unfoldable pub begin_chain : DoubleRatchet → DoubleRatchet
  begin_chain d =
      let seed =
        if (((d.root).step + 1) % 2 ^ 32) % kyber_period == 0
        then xor (d.sender).root d.ss
        else (d.sender).root in
      let next = next_rk prim seed d.root in
      record d { root = next.1; sender = from_secret (next.0); sender_hash = prim.hash (next.0) }

  unfoldable pub header : DoubleRatchet → MessageHeader
  header d = record {
    id = record { step = (d.root).step; sub_step = (d.sender).step };
    prev_sub_count = d.prev_sub_count;
    kyber =
        if (d.root).step % kyber_period == 0
        then some (record { public = prim.kyber_public d.kyber; cp = d.cp })
        else none;
    x25519 = prim.public_of d.x25519;
  }

  unfoldable pub send : DoubleRatchet → (MessageHeader × ℕ) × DoubleRatchet
  send d =
      let begun = if (d.sender).step == u32_max then begin_chain d else d in
      let key = next_sc prim begun.sender in
      ((header begun, key.0), record begun { sender = key.1 })

abbrev pub is_major : MessageHeader → Bool
is_major message = elim message.kyber [ none ↦ false | some kyb ↦ true ]
