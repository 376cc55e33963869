-- ===== src/Mailbox.antt =====
-- The mailboxes: src/c/mailbox.c and src/c/include/mailbox.h. A device is what its registers give, one
-- access after the other; `none` is a wait that goes on when there is nothing more.
pub mod Trip
use rpi_kernel.Base.{
  ℕ, ◌/◌, ◌^◌, Bool, true, false, Option, none, some, List, [], ◌∷◌, ◌==◌, if◌then◌else◌, update,
  bit_and, bit_or,
}

-- `mailbox0_channel_t`
pub data Channel : Type 0 where
  mb0_power_management mb0_framebuffer mb0_virtual_uart mb0_vchiq mb0_led : Channel
  mb0_buttons mb0_touch_screen mb0_reserved0 : Channel
  mb0_property_tags_arm_to_vc mb0_property_tags_vc_to_arm : Channel

unfoldable pub channel_code : Channel → ℕ
channel_code mb0_power_management = 0
channel_code mb0_framebuffer = 1
channel_code mb0_virtual_uart = 2
channel_code mb0_vchiq = 3
channel_code mb0_led = 4
channel_code mb0_buttons = 5
channel_code mb0_touch_screen = 6
channel_code mb0_reserved0 = 7
channel_code mb0_property_tags_arm_to_vc = 8
channel_code mb0_property_tags_vc_to_arm = 9

abbrev pub vc_mmu_base : ℕ
vc_mmu_base = 0x40000000

-- `mailbox_status_t`
abbrev pub mb_status_full : ℕ
mb_status_full = 2 ^ 31

abbrev pub mb_status_empty : ℕ
mb_status_empty = 2 ^ 30

-- `VC_MMU_BASE | (msg & 0xfffffff0) | (channel & 0xf)`
unfoldable pub mailbox_word : Channel → (msg : ℕ) → ℕ
unfolding channel_code
mailbox_word channel msg =
    bit_or (bit_or vc_mmu_base (bit_and msg 0xfffffff0)) (bit_and (channel_code channel) 15)

-- The word that goes to the write register, once the status register, which gives `statuses`, is no
-- longer full.
unfoldable pub mailbox_write : Channel → (msg : ℕ) → (statuses : List ℕ) → Option ℕ
unfolding mailbox_word
mailbox_write channel msg [] = none
mailbox_write channel msg (status ∷ statuses) =
    let later = mailbox_write channel msg statuses in
    if bit_and status mb_status_full == 0 then some (mailbox_word channel msg) else later

-- What the status register and the read register give, in the order of the accesses; `ready` tells
-- whether the next one is to the read register. The result comes with what is left.
unfoldable pub read_loop : Channel → (ready : Bool) → List ℕ → Option (ℕ × List ℕ)
unfolding channel_code
read_loop channel ready [] = none
read_loop channel false (status ∷ rest) =
    read_loop channel (bit_and status mb_status_empty == 0) rest
read_loop channel true (word ∷ rest) =
    let later = read_loop channel false rest in
    if bit_and word 15 == channel_code channel then some (word / 16, rest) else later

unfoldable pub mailbox_read_beta : Channel → List ℕ → Option (ℕ × List ℕ)
unfolding read_loop
mailbox_read_beta channel given = read_loop channel false given

-- `core_mailbox->interrupt_routing`
unfoldable pub core_mailbox_interrupt_routing : (core_id type : ℕ) → (ℕ → ℕ) → ℕ → ℕ
core_mailbox_interrupt_routing core_id type routing = update routing core_id type
