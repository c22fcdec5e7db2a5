-- ===== src/Fd/Tests.antt =====
-- Runs of the deposit ledger on one small ledger, and instances of its theorems on it.
use pft_backend.Prelude.{
  ℕ, ◌+◌, ◌≡◌, refl, take, min, sum_by, none, some, [], ◌∷◌, ◌++◌, arith, Distinct,
}
use pft_backend.Prelude.Int.{pos, ◌+ℤ◌, ◌-ℤ◌}
use pft_backend.Prelude.Action.{ok}
use pft_backend.Prelude.Value.{fin}
use pft_backend.Fd.Packet.{FdPacket}
use pft_backend.Fd.Table.{
  FdEntry, contribution, break, entries_of, summarize_entries, consumed, oldest_first, totals,
}
use pft_backend.Fd.Service.{
  summarize, remaining, UndoResult, upsert_month, break_in, break_lots, FdTable, BreakResult,
  break_packets, undo_break, sync_contribution,
}
use pft_backend.Fd.Break.{rows_of, lots_of, break_packets-summarize}
use pft_backend.Fd.Cover.{entry_id, IsValid, IsFresh, break_packets-IsValid}
use pft_backend.Fd.Fifo.{break_packets_fifo}
use pft_backend.Fd.Enough.{break_packets-remaining}
use pft_backend.Fd.Sync.{sync_contribution-IsValid}

-- A lot of packets of 1000 rupees.
abbrev lot : ℕ → ℕ → ℕ → ℕ → FdEntry
lot id t quantity month = record {
  id = id;
  tenant = t;
  kind = contribution;
  amount = 100000;
  quantity = quantity;
  year = some 2025;
  month = some month;
  source = none;
  created_at = month;
  created_by = 7;
}

-- Tenant 1 has three packets of April and five of May; tenant 2 has one lot.
abbrev two_lots : FdTable
two_lots = lot 1 1 3 4 ∷ lot 2 2 6 4 ∷ lot 3 1 5 5 ∷ []

abbrev fresh : ℕ → ℕ
fresh k = 50 + k

abbrev broken_row : ℕ → ℕ → ℕ → FdEntry
broken_row id source quantity = record {
  id = id;
  tenant = 1;
  kind = break;
  amount = 100000;
  quantity = quantity;
  year = none;
  month = none;
  source = some source;
  created_at = 100;
  created_by = 7;
}

abbrev after_four : FdTable
after_four = two_lots ++ (broken_row 50 1 3 ∷ broken_row 51 3 1 ∷ [])

abbrev four_broken : BreakResult
four_broken = record { rupees = 400000; remaining_packets = pos 4; fd_balance = pos 400000 }

-- Four packets take the three of April and one of May.
break_packets-four :
    break_packets 100 fresh 1 7 (fin (pos 400)) none two_lots ≡ (ok four_broken, after_four)
unfolding break_packets break_in break_lots entries_of summarize_entries consumed oldest_first ◌-ℤ◌
    totals
break_packets-four = refl

two_lots-IsValid : IsValid 1 two_lots
unfolding entries_of consumed
two_lots-IsValid = record {
  distinct = ground arith;
  undated = ground arith;
  covered = ground arith;
}

fresh-IsFresh : IsFresh fresh (entries_of 1 two_lots)
unfolding entries_of
fresh-IsFresh = record { unused = λ k. ground arith; injective = λ j k h. ground arith }

break_packets-summarize_example :
    let before = summarize 1 two_lots in
    let after = summarize 1 after_four in
    (four_broken.remaining_packets ≡ after.remaining_packets)
    × (four_broken.fd_balance ≡ after.fd_balance)
    × (after.broken_fd_rupees ≡ before.broken_fd_rupees + four_broken.rupees)
    × (after.remaining_packets +ℤ pos 4 ≡ before.remaining_packets)
    × (after.fd_balance +ℤ pos four_broken.rupees ≡ before.fd_balance)
break_packets-summarize_example =
    break_packets-summarize 100 fresh 1 7 (fin (pos 400)) none two_lots four_broken after_four
      break_packets-four

break_packets-IsValid_example : IsValid 1 after_four
break_packets-IsValid_example =
    break_packets-IsValid 100 fresh 1 7 (fin (pos 400)) none two_lots four_broken after_four
      fresh-IsFresh two_lots-IsValid break_packets-four

break_packets_fifo_example :
    let oldest = take 1 (lots_of 1 none two_lots) in
    sum_by (λ l. consumed (entries_of 1 after_four) l.id) oldest
    ≡ sum_by (λ l. consumed (entries_of 1 two_lots) l.id) oldest
      + min 4 (sum_by (remaining (rows_of 1 two_lots)) oldest)
break_packets_fifo_example =
    break_packets_fifo 100 fresh 1 7 (fin (pos 400)) none two_lots four_broken after_four
      two_lots-IsValid break_packets-four 1

-- The summary shows eight packets as remaining.
break_packets-remaining_example :
    (r : BreakResult) × (table' : FdTable) × (break_packets 100 fresh 1 7
        (fin (pos 800))
        none
        two_lots
      ≡ (ok r, table'))
unfolding summarize summarize_entries totals entries_of ◌-ℤ◌
break_packets-remaining_example =
    break_packets-remaining 100 fresh 1 7 (fin (pos 800)) two_lots two_lots-IsValid.distinct refl
      refl (ground arith)

abbrev two_broken : BreakResult
two_broken = record { rupees = 200000; remaining_packets = pos 6; fd_balance = pos 600000 }

break_packets-two :
    break_packets 100 fresh 1 7 (fin (pos 200)) none two_lots
    ≡ (ok two_broken, two_lots ++ (broken_row 50 1 2 ∷ []))
unfolding break_packets break_in break_lots entries_of summarize_entries consumed oldest_first ◌-ℤ◌
    totals
break_packets-two = refl

abbrev undone : UndoResult
undone = record { reverted_rupees = 200000; restored_packets = 2 }

undo_break-two : undo_break 1 50 (two_lots ++ (broken_row 50 1 2 ∷ [])) ≡ (ok undone, two_lots)
unfolding undo_break
undo_break-two = refl

after_two-Distinct : Distinct entry_id (two_lots ++ (broken_row 50 1 2 ∷ []))
after_two-Distinct = ground arith

after_two-IsValid : IsValid 1 (two_lots ++ (broken_row 50 1 2 ∷ []))
unfolding entries_of consumed
after_two-IsValid = record {
  distinct = ground arith;
  undated = ground arith;
  covered = ground arith;
}

abbrev packet : FdPacket
packet = record { amount = 100000; quantity = 4 }

abbrev april : FdEntry
april = lot 1 1 4 4

abbrev synced : FdTable
synced = lot 1 1 4 4 ∷ lot 2 2 6 4 ∷ lot 3 1 5 5 ∷ []

sync_contribution-april : sync_contribution 100 60 1 7 2025 4 packet two_lots ≡ (ok april, synced)
unfolding sync_contribution consumed entries_of upsert_month
sync_contribution-april = refl

sync_contribution-IsValid_example : IsValid 1 synced
unfolding entries_of consumed
sync_contribution-IsValid_example =
    sync_contribution-IsValid 100 60 1 7 2025 4 packet two_lots april synced (refl, (refl, tt)) refl
      two_lots-IsValid sync_contribution-april
