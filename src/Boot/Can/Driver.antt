-- ===== src/Boot/Can/Driver.antt =====
-- src/boot/boot_can.c: how a frame goes into a free mailbox of the CAN controller and out of its
-- receive FIFO. What TSR reads is a parameter: one value at the choice of a mailbox, and one for each
-- round of the wait.
pub mod Frames
use io_edge_hub_freertos.Common.{
  ℕ, zero, suc, ◌+◌, ◌-◌, ◌*◌, ◌%◌, ◌^◌, ◌<◌, ◌≡◌, Bool, true, false, not, Option, none, some,
}
use io_edge_hub_freertos.Common.{
  List, [], ◌∷◌, ◌++◌, length, drop, bit_and, bit_or, u8, u32, ◌<<◌, ◌>>◌, ltb, ◌==◌, if◌then◌else◌,
}

-- The registers of a transmit mailbox.
pub record TxBox : Type 0 where
  pub tdlr : ℕ
  pub tdhr : ℕ
  pub tdtr : ℕ
  pub tir : ℕ

-- The registers of the receive mailbox.
pub record RxBox : Type 0 where
  pub rir : ℕ
  pub rdtr : ℕ
  pub rdlr : ℕ
  pub rdhr : ℕ

-- What `can_send` writes: the number of the mailbox, its registers, and the value that clears the
-- flag of completion in TSR, when that was seen in time.
pub record Sent : Type 0 where
  pub box : ℕ
  pub mailbox : TxBox
  pub tsr : Option ℕ

-- What `can_recv` returns and stores: the length, with 0 for no frame and 0xFF for an extended one,
-- the identifier and the buffer.
pub record Rx : Type 0 where
  pub ret : ℕ
  pub id : ℕ
  pub bytes : List ℕ

-- The loop of `can_send`; `i` is the index of the first byte left.
unfoldable pub send_loop : List ℕ → ℕ → ℕ → ℕ → ℕ × ℕ
send_loop [] i dl dh = (dl, dh)
send_loop (b ∷ bs) i dl dh =
    send_loop bs (i + 1) (if ltb i 4 then bit_or dl (u32 (b << (8 * i))) else dl)
      (if ltb i 4 then dh else bit_or dh (u32 (b << (8 * (i - 4)))))

-- The first empty mailbox by CAN_TSR_TME0 to CAN_TSR_TME2.
unfoldable pub free_box : ℕ → Option ℕ
free_box tsr =
    if not (bit_and tsr (2 ^ 26) == 0)
    then some 0
    else if not (bit_and tsr (2 ^ 27) == 0)
    then some 1
    else if not (bit_and tsr (2 ^ 28) == 0)
    then some 2
    else none

-- The wait for the completion: `polls` gives what TSR reads with so many rounds left.
unfoldable pub completion : ℕ → (ℕ → ℕ) → ℕ → Option ℕ
completion zero polls box = none
completion (suc t) polls box =
    let rqcp = u32 (1 << (box * 8)) in
    elim (bit_and (polls t) rqcp == 0) [ false ↦ some rqcp | true ↦ completion t polls box ]

-- `none` is a return without a write.
unfoldable pub can_send : ℕ → (ℕ → ℕ) → ℕ → List ℕ → Option Sent
unfolding send_loop free_box
can_send tsr polls id bytes =
    let (dl, dh) = send_loop bytes 0 0 0 in
    if ltb 8 (length bytes) then none else elim (free_box tsr) [
      | none ↦ none
      | some box ↦ some (record {
        box = box;
        mailbox = record {
          tdlr = dl;
          tdhr = dh;
          tdtr = length bytes;
          tir = bit_or (u32 (bit_and id 0x7FF << 21)) 1;
        };
        tsr = completion 100000 polls box;
      })
    ]

-- The loop of `can_recv`: the bytes `i` to `i + n - 1`.
unfoldable pub recv_loop : ℕ → ℕ → ℕ → ℕ → List ℕ
recv_loop zero i dl dh = []
recv_loop (suc n) i dl dh =
    u8 ((if ltb i 4 then dl else dh) >> u8 (bit_and i 3 * 8)) ∷ recv_loop n (i + 1) dl dh

-- `rx` holds the caller's variables; `none` is an empty FIFO.
unfoldable pub can_recv : Rx → Option RxBox → Rx
unfolding recv_loop
can_recv rx none = record rx { ret = 0 }
can_recv rx (some box) =
    let dlc = bit_and box.rdtr 0xF in
    let len = if ltb 8 dlc then 8 else dlc in
    if not (bit_and box.rir 4 == 0) then record rx { ret = 0xFF } else record {
      ret = len;
      id = bit_and box.rir (2 ^ 32 - 2 ^ 21) >> 21;
      bytes = recv_loop len 0 box.rdlr box.rdhr ++ drop len rx.bytes;
    }

-- The frame as the receiver's mailbox holds it: the identifier stands at the same bits, and the bit
-- that requested the transmission is 0.
abbrev pub delivered : TxBox → RxBox
delivered t = record { rir = t.tir - t.tir % 2; rdtr = t.tdtr; rdlr = t.tdlr; rdhr = t.tdhr }
