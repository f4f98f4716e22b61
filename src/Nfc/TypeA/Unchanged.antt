-- ===== src/Nfc/TypeA/Unchanged.antt =====
-- What the activation of a type A card leaves alone.
use nfcee_fw.Base.{
  ℕ, zero, suc, ◌+◌, ◌*◌, ◌≡◌, inl, inr, refl, ◌∙◌, Option, none, some, List, [], ◌∷◌, bit_and,
  bit_or, ltb, ◌==◌, if◌then◌else◌, length, take, drop, Bool-cases, set, overlay, overlay_at,
}
use nfcee_fw.Word.{u8, ◌<<<◌, ◌>>>◌}
use nfcee_fw.Run.{Run, returns, Post, Post->>=, Post-map, Post-returns}
use nfcee_fw.Crc.{crca}
use nfcee_fw.Nfc.{Errno, Ret, is_fail, Device, Driver}
use nfcee_fw.Nfc.Tables.{fsd2fsdi}
use nfcee_fw.Nfc.Frames.{transceive_plain, transceive_short, transceive_crc}
use nfcee_fw.Nfc.TypeA.{
  Locals, byte_at, is_bcc_valid, append_nfcid, close_level, cascade_level, cascade, request_ats,
  finish_open, iso14443a_open, default_timeout,
}

-- The two drivers differ at most in what the activation finds out about the card: its identifier,
-- `atqa`, `sak`, `ats`, and the frame size and waiting time that these announce.
pub record IsSameSession (d d' : Driver) : Type 0 where
  pub tech : d'.tech ≡ d.tech
  pub state : d'.state ≡ d.state
  pub block : d'.block ≡ d.block
  pub fsd : d'.fsd ≡ d.fsd
  pub atqb : d'.atqb ≡ d.atqb

same : (d : Driver) → IsSameSession d d
same d = record { tech = refl; state = refl; block = refl; fsd = refl; atqb = refl }

then_same : {d d' d'' : Driver} → IsSameSession d d' → IsSameSession d' d'' → IsSameSession d d''
then_same a b = record {
  tech = b.tech ∙ a.tech;
  state = b.state ∙ a.state;
  block = b.block ∙ a.block;
  fsd = b.fsd ∙ a.fsd;
  atqb = b.atqb ∙ a.atqb;
}

append_nfcid-same :
    (part : List ℕ) (d : Driver) → Post (λ d'. IsSameSession d d') (append_nfcid part d)
unfolding append_nfcid
append_nfcid-same part d = elim (Bool-cases (ltb 10 (d.nfcid_len + length part))) [
  | inl e ↦ rw e tt
  | inr e ↦ rw e (record { tech = refl; state = refl; block = refl; fsd = refl; atqb = refl })
]

abbrev SameAfter : Driver → Option Errno × Driver → Type 0
SameAfter d (e, d') = IsSameSession d d'

close_level-same : (sak buf : List ℕ) (d : Driver) → Post (SameAfter d) (close_level sak buf d)
unfolding close_level
close_level-same sak buf d = elim (Bool-cases (bit_and (byte_at sak 0) 4 == 0)) [
  | inr more ↦ rw more (
      Post->>= (λ d'. IsSameSession d d') (SameAfter d) (append_nfcid (take 3 (drop 3 buf)) d) _
        (append_nfcid-same (take 3 (drop 3 buf)) d) (λ d' h. h))
  | inl last ↦
      rw last (elim (Bool-cases (crca (take 1 sak) == byte_at sak 1 + byte_at sak 2 <<< 8)) [
        | inr bad ↦ rw bad (same d)
        | inl good ↦
            let d1 = record d { sak = byte_at sak 0 } in
            rw good (
              Post->>= (λ d'. IsSameSession d1 d') (SameAfter d)
                (append_nfcid (take 4 (drop 2 buf)) d1) _
                (append_nfcid-same (take 4 (drop 2 buf)) d1)
                (λ d' h. record {
                  tech = h.tech;
                  state = h.state;
                  block = h.block;
                  fsd = h.fsd;
                  atqb = h.atqb;
                }))
      ])
]

module _ {W : Type 0} (dev : Device W) where
  abbrev LevelSame : Driver → Option Errno × Driver × List ℕ × W → Type 0
  LevelSame d (e, d', buf, w) = IsSameSession d d'

  cascade_level-same :
      (level : ℕ) (sak0 buf0 : List ℕ) (d : Driver) (w : W)
      → Post (LevelSame d) (cascade_level dev level sak0 buf0 d w)
  unfolding cascade_level
  cascade_level-same level sak0 buf0 d w =
      let buf1 = set (set buf0 0 (u8 (0x93 + 2 * level))) 1 0x20 in
      let (uid, w1) =
        transceive_plain dev (take (if level == 0 then 2 else 7) buf1) 5 default_timeout w in
      let buf2 = overlay_at 2 buf1 uid.stored in
      let buf3 = set buf2 1 0x70 in
      let (ack, w2) = transceive_crc dev (take 7 buf3) 3 default_timeout w1 in
      elim (Bool-cases (is_fail uid.ret)) [
        | inl e ↦ rw e (same d)
        | inr e ↦ rw e (elim (Bool-cases (is_bcc_valid buf2)) [
          | inr f ↦ rw f (same d)
          | inl f ↦ rw f (elim (Bool-cases (is_fail ack.ret)) [
            | inl g ↦ rw g (same d)
            | inr g ↦ rw g (
                Post->>= (SameAfter d) (LevelSame d) (close_level (overlay sak0 ack.stored) buf3 d)
                  _ (close_level-same (overlay sak0 ack.stored) buf3 d) (λ (err, d') h. h))
          ])
        ])
      ]

  abbrev CascadeSame : Driver → Option Errno × Driver × W → Type 0
  CascadeSame d (e, d', w) = IsSameSession d d'

  after_level-same :
      (d d' : Driver) (e : Option Errno) (w' : W) (rest : Run (Option Errno × Driver × W))
      → IsSameSession d d'
      → Post (CascadeSame d') rest
      → Post (CascadeSame d) (elim e [ none ↦ rest | some error ↦ returns (some error, d', w') ])
  after_level-same d d' none w' rest h k =
      Post-map (CascadeSame d') (CascadeSame d) rest (λ (e, d'', w'') k'. then_same h k') k
  after_level-same d d' (some error) w' rest h k = h

  cascade-same :
      (rounds level : ℕ) (sak0 : ℕ → List ℕ) (buf : List ℕ) (d : Driver) (w : W)
      → Post (CascadeSame d) (cascade dev rounds level sak0 buf d w)
  unfolding cascade
  cascade-same zero level sak0 buf d w = same d
  cascade-same (suc rounds) level sak0 buf d w =
      Post->>= (LevelSame d) (CascadeSame d) (cascade_level dev level (sak0 level) buf d w) _
        (cascade_level-same level (sak0 level) buf d w)
        (λ (e, d', buf', w') h.
          after_level-same d d' e w' (cascade dev rounds (level + 1) sak0 buf' d' w') h
            (cascade-same rounds (level + 1) sak0 buf' d' w'))

  abbrev pub OpenSame : Driver → Ret × Driver × W → Type 0
  OpenSame d (ret, d', w) = IsSameSession d d'

  request_ats-same : (d : Driver) (w : W) → Post (OpenSame d) (request_ats dev d w)
  unfolding request_ats
  request_ats-same d w =
      let rats = 0xE0 ∷ u8 (fsd2fsdi d.fsd <<< 4) ∷ [] in
      let (answer, w1) = transceive_crc dev rats 7 default_timeout w in
      elim (Bool-cases (bit_and d.sak 0x24 == 0x20)) [
        | inr e ↦ rw e (same d)
        | inl e ↦ rw e (elim (Bool-cases (is_fail answer.ret)) [
          | inl f ↦
              rw f (record { tech = refl; state = refl; block = refl; fsd = refl; atqb = refl })
          | inr f ↦
              rw f (record { tech = refl; state = refl; block = refl; fsd = refl; atqb = refl })
        ])
      ]

  finish_open-same :
      (d d' : Driver) (e : Option Errno) (w : W)
      → IsSameSession d d'
      → Post (OpenSame d) (finish_open dev (e, d', w))
  unfolding finish_open
  finish_open-same d d' none w h =
      Post-map (OpenSame d') (OpenSame d) (request_ats dev d' w) (λ (r, d'', w'') k. then_same h k)
        (request_ats-same d' w)
  finish_open-same d d' (some error) w h = h

  pub iso14443a_open-same :
      (locals : Locals) (d : Driver) (w : W) → Post (OpenSame d) (iso14443a_open dev locals d w)
  unfolding iso14443a_open
  iso14443a_open-same locals d w =
      let (answer, w1) = transceive_short dev 0x52 8 default_timeout w in
      let buf = overlay locals.buf answer.stored in
      let d1 = record d { atqa = bit_or (byte_at buf 0) (byte_at buf 1 <<< 8) } in
      let uid_size = bit_and (byte_at buf 0 >>> 6) 3 + 1 in
      let d2 = record d1 { nfcid_len = 0 } in
      let kept : IsSameSession d d2 = record {
        tech = refl;
        state = refl;
        block = refl;
        fsd = refl;
        atqb = refl;
      } in
      elim (Bool-cases (is_fail answer.ret)) [
        | inl e ↦ rw e (same d)
        | inr e ↦ rw e (elim (Bool-cases (bit_and d1.atqa 0x1F == 0)) [
          | inl f ↦
              rw f (record { tech = refl; state = refl; block = refl; fsd = refl; atqb = refl })
          | inr f ↦ rw f (elim (Bool-cases (ltb 3 uid_size)) [
            | inl g ↦
                rw g (record { tech = refl; state = refl; block = refl; fsd = refl; atqb = refl })
            | inr g ↦ rw g (
                Post->>= (CascadeSame d2) (OpenSame d) (cascade dev uid_size 0 locals.sak buf d2 w1)
                  _ (cascade-same uid_size 0 locals.sak buf d2 w1)
                  (λ (err, d', w') h. finish_open-same d d' err w' (then_same kept h)))
          ])
        ])
      ]

-- Whatever the reader and the card do, the activation of a type A card changes nothing of the driver but
-- what it finds out about the card: the technology, the state of the session, the block number, the
-- reader's frame size and the data of type B stay as they were.
pub iso14443a_open-IsSameSession :
    {W : Type 0} (dev : Device W) (locals : Locals) (d d' : Driver) (w w' : W) (ret : Ret)
    → iso14443a_open dev locals d w ≡ returns (ret, d', w')
    → IsSameSession d d'
iso14443a_open-IsSameSession dev locals d d' w w' ret ran =
    Post-returns (OpenSame dev d) _ (iso14443a_open-same dev locals d w) ran
