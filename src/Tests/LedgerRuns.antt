-- ===== src/Tests/LedgerRuns.antt =====
-- The posting function and the amounts on the sample.
use pulse_ledger.Base.{◌≡◌, refl}
use pulse_ledger.Base.Int.{◌+ℤ◌, ◌-ℤ◌}
use pulse_ledger.Errors.{ok}
use pulse_ledger.Ledger.Keys.{IsKeyed}
use pulse_ledger.Ledger.Sums.{computed}
use pulse_ledger.Ledger.Post.{post_ledger_transaction, check_posting, apply_entries, delta}
use pulse_ledger.Ledger.Consistent.{IsConsistent, post-IsConsistent}
use pulse_ledger.Ledger.Conservation.{total_balance, total_balance-post}
use pulse_ledger.Tests.Sample.{opened, funding_args, funding_row, funded}

pub post_funded : post_ledger_transaction funding_args opened ≡ ok (funding_row, funded)
unfolding post_ledger_transaction check_posting apply_entries delta ◌+ℤ◌ ◌-ℤ◌
post_funded = refl

opened-IsConsistent : IsConsistent opened
unfolding computed
opened-IsConsistent = record {
  cached = (refl, (refl, (refl, tt)));
  covered = (refl, (refl, (refl, tt)));
  linked = tt;
  balanced = tt;
  positive = tt;
}

pub funded-IsConsistent : IsConsistent funded
funded-IsConsistent =
    post-IsConsistent funding_args opened funded funding_row post_funded opened-IsConsistent

pub funded-IsKeyed : IsKeyed funded.accounts
funded-IsKeyed = (refl, (refl, (refl, tt)))

post-IsConsistent_example : IsConsistent funded
post-IsConsistent_example =
    post-IsConsistent funding_args opened funded funding_row post_funded opened-IsConsistent

total_balance-post_example : total_balance funded.accounts ≡ total_balance opened.accounts
total_balance-post_example =
    total_balance-post funding_args opened funded funding_row post_funded (refl, (refl, (refl, tt)))
