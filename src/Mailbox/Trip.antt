-- ===== src/Mailbox/Trip.antt =====
-- What one side of a mailbox writes and the other reads: src/c/mailbox.c.
use rpi_kernel.Base.{
  ℕ, ◌/◌, ◌%◌, ◌^◌, ◌<◌, ◌≡◌, ◌≢◌, refl, ap, sym, ◌∙◌, true, false, some, List, [], ◌∷◌, ◌++◌, ◌==◌,
  arith, bit_and, bit_or, Bool-cases, inl, inr, ==_refl,
}
use rpi_kernel.Base.Bits.{bit_or-halve, bit_and-halve, bit_and-ones, bit_or-zero, ones}
use rpi_kernel.Mailbox.{
  Channel, mb0_power_management, mb0_framebuffer, mb0_virtual_uart, mb0_vchiq, mb0_led, mb0_buttons,
  mb0_touch_screen, mb0_reserved0, mb0_property_tags_arm_to_vc, mb0_property_tags_vc_to_arm,
  channel_code, vc_mmu_base, mb_status_empty, mb_status_full, mailbox_word, mailbox_write,
  read_loop, mailbox_read_beta,
}

bit_or-half : (a b : ℕ) → bit_or a b / 2 ≡ bit_or (a / 2) (b / 2)
bit_or-half a b = omega (arith, bit_or-halve a b)

bit_and-half : (a b : ℕ) → bit_and a b / 2 ≡ bit_and (a / 2) (b / 2)
bit_and-half a b = omega (arith, bit_and-halve a b)

-- Of a sum of bits the lowest four and the others.
div_sixteen : (a : ℕ) → a / 16 ≡ a / 2 / 2 / 2 / 2
div_sixteen a = omega arith

bit_or-upper : (a b : ℕ) → bit_or a b / 16 ≡ bit_or (a / 16) (b / 16)
bit_or-upper a b =
    rw
      (
        div_sixteen (bit_or a b),
        bit_or-half a b,
        bit_or-half (a / 2) (b / 2),
        bit_or-half (a / 2 / 2) (b / 2 / 2),
        bit_or-half (a / 2 / 2 / 2) (b / 2 / 2 / 2),
        div_sixteen a,
        div_sixteen b,
      )
      refl

bit_and-upper : (a b : ℕ) → bit_and a b / 16 ≡ bit_and (a / 16) (b / 16)
bit_and-upper a b =
    rw
      (
        div_sixteen (bit_and a b),
        bit_and-half a b,
        bit_and-half (a / 2) (b / 2),
        bit_and-half (a / 2 / 2) (b / 2 / 2),
        bit_and-half (a / 2 / 2 / 2) (b / 2 / 2 / 2),
        div_sixteen a,
        div_sixteen b,
      )
      refl

bit_or-low : (a b : ℕ) → a % 16 ≡ 0 → bit_or a b % 16 ≡ b % 16
bit_or-low a b zeros = omega (
  arith,
  bit_or-halve a b,
  bit_or-halve (a / 2) (b / 2),
  bit_or-halve (a / 2 / 2) (b / 2 / 2),
  bit_or-halve (a / 2 / 2 / 2) (b / 2 / 2 / 2),
)

bit_and-low : (a b : ℕ) → b % 16 ≡ 0 → bit_and a b % 16 ≡ 0
bit_and-low a b zeros = omega (
  arith,
  bit_and-halve a b,
  bit_and-halve (a / 2) (b / 2),
  bit_and-halve (a / 2 / 2) (b / 2 / 2),
  bit_and-halve (a / 2 / 2 / 2) (b / 2 / 2 / 2),
)

channel_code-small : (channel : Channel) → bit_and (channel_code channel) 15 ≡ channel_code channel
unfolding channel_code
channel_code-small mb0_power_management = refl
channel_code-small mb0_framebuffer = refl
channel_code-small mb0_virtual_uart = refl
channel_code-small mb0_vchiq = refl
channel_code-small mb0_led = refl
channel_code-small mb0_buttons = refl
channel_code-small mb0_touch_screen = refl
channel_code-small mb0_reserved0 = refl
channel_code-small mb0_property_tags_arm_to_vc = refl
channel_code-small mb0_property_tags_vc_to_arm = refl

bit_and-fifteen : (a : ℕ) → bit_and a 15 ≡ a % 16
unfolding ones
bit_and-fifteen a = bit_and-ones 4 a

-- The two parts of the word that is written.
module _ (channel : Channel) (msg : ℕ) where
  abbrev upper : ℕ
  upper = bit_or vc_mmu_base (bit_and msg 0xfffffff0)

  upper-low : upper % 16 ≡ 0
  upper-low = bit_or-low vc_mmu_base (bit_and msg 0xfffffff0) refl ∙ bit_and-low msg 0xfffffff0 refl

  word_channel : bit_and (mailbox_word channel msg) 15 ≡ channel_code channel
  unfolding mailbox_word
  word_channel =
      bit_and-fifteen (bit_or upper (bit_and (channel_code channel) 15))
      ∙ (bit_or-low upper (bit_and (channel_code channel) 15) upper-low
          ∙ (sym (bit_and-fifteen (bit_and (channel_code channel) 15))
              ∙ rw (channel_code-small channel) (channel_code-small channel)))

  word_message : msg < 2 ^ 32 → mailbox_word channel msg / 16 ≡ bit_or (2 ^ 26) (msg / 16)
  unfolding mailbox_word ones
  word_message word =
      let low : bit_and (channel_code channel) 15 / 16 ≡ 0 =
        rw (bit_and-fifteen (channel_code channel)) (omega arith) in
      let kept : bit_and msg 0xfffffff0 / 16 ≡ msg / 16 =
        bit_and-upper msg 0xfffffff0 ∙ (bit_and-ones 28 (msg / 16) ∙ omega arith) in
      bit_or-upper upper (bit_and (channel_code channel) 15)
      ∙ (rw low (bit_or-zero (upper / 16))
          ∙ (bit_or-upper vc_mmu_base (bit_and msg 0xfffffff0) ∙ ap (bit_or (2 ^ 26)) kept))

-- One delivery of the device: it is empty for a while, then it is not, then a word is read.
pub record Delivery : Type 0 where
  pub empty : List ℕ
  pub filled : ℕ
  pub word : ℕ

-- The bit of the status register says so.
abbrev pub AllEmpty : List ℕ → Type 0
AllEmpty [] = Unit
AllEmpty (status ∷ statuses) = ((bit_and status mb_status_empty == 0) ≡ false) × AllEmpty statuses

abbrev pub IsDelivery : Delivery → Type 0
IsDelivery d = AllEmpty d.empty × (bit_and d.filled mb_status_empty ≡ 0)

abbrev pub accesses : Delivery → List ℕ → List ℕ
accesses d rest = d.empty ++ d.filled ∷ d.word ∷ rest

abbrev pub all_accesses : List Delivery → List ℕ → List ℕ
all_accesses [] rest = rest
all_accesses (d ∷ ds) rest = accesses d (all_accesses ds rest)

-- Deliveries for other channels.
abbrev pub AreOthers : Channel → List Delivery → Type 0
AreOthers channel [] = Unit
AreOthers channel (d ∷ ds) =
    IsDelivery d × (bit_and d.word 15 ≢ channel_code channel) × AreOthers channel ds

read-wait :
    (channel : Channel) (statuses : List ℕ) (filled : ℕ) (rest : List ℕ)
    → AllEmpty statuses
    → bit_and filled mb_status_empty ≡ 0
    → read_loop channel false (statuses ++ filled ∷ rest) ≡ read_loop channel true rest
unfolding read_loop
read-wait channel [] filled rest e f = ap (λ b. read_loop channel b rest) (ground (arith, f))
read-wait channel (status ∷ statuses) filled rest e f =
    ap (λ b. read_loop channel b (statuses ++ filled ∷ rest)) e.0
    ∙ read-wait channel statuses filled rest e.1 f

written_word :
    (channel : Channel) (msg w : ℕ) (statuses : List ℕ)
    → mailbox_write channel msg statuses ≡ some w
    → w ≡ mailbox_word channel msg
unfolding mailbox_write
written_word channel msg w [] e = cc
written_word channel msg w (status ∷ statuses) e =
    elim (Bool-cases (bit_and status mb_status_full == 0)) [
      | inl open_now ↦ let first : some (mailbox_word channel msg) ≡ some w = rw open_now at e in cc
      | inr full ↦ written_word channel msg w statuses (rw full at e)
    ]

-- What was written to a channel is read from it, after any number of words for other channels, however
-- long the device is empty before each of them: of the 32 bits of the message the upper 28, with the bit
-- of the bus address set; and what comes after it is left for the next read.
pub read-write :
    (channel : Channel) (msg : ℕ) (others : List Delivery) (d : Delivery) (statuses rest : List ℕ)
    → msg < 2 ^ 32
    → mailbox_write channel msg statuses ≡ some d.word
    → AreOthers channel others
    → IsDelivery d
    → mailbox_read_beta channel (all_accesses others (accesses d rest))
      ≡ some (bit_or (2 ^ 26) (msg / 16), rest)
unfolding mailbox_read_beta read_loop
read-write channel msg [] d statuses rest word written o e =
    let same : d.word ≡ mailbox_word channel msg =
      written_word channel msg d.word statuses written in
    let mine : (bit_and d.word 15 == channel_code channel) ≡ true =
      rw (same, word_channel channel msg) (==_refl (channel_code channel)) in
    read-wait channel d.empty d.filled (d.word ∷ rest) e.0 e.1
    ∙ rw (mine, same, word_message channel msg word) refl
read-write channel msg (other ∷ others) d statuses rest word written (oe, ne, os) e =
    let foreign : (bit_and other.word 15 == channel_code channel) ≡ false = ground arith in
    read-wait channel other.empty other.filled (other.word ∷ all_accesses others (accesses d rest))
      oe.0 oe.1
    ∙ rw foreign (read-write channel msg others d statuses rest word written os e)
