-- ===== src/Ssp/Wait/Stale.antt =====
-- ssp_wait of ssp/src/ssp.c with a process that is gone.
use kernel_modules.Common.{◌≡◌, Bool, true, false, ℤ, minus_one}
use kernel_modules.Ssp.{System}
use kernel_modules.Ssp.Status.{is_positive}
use kernel_modules.Ssp.Shows.{Shows}

module _ {W : Type 0} (os : System W) where
  -- What waitpid does as documented, for `is_child`, which tells whether a pid is that of a child that
  -- can be waited for: a wait for another pid fails, and no wait makes a child.
  pub record Waits (is_child : W → ℤ → Bool) : Type 0 where
    pub fails :
        (pid : ℤ) (w : W)
        → is_positive pid ≡ true
        → is_child w pid ≡ false
        → (os.waitpid pid false w).0.result ≡ minus_one
    pub stays :
        (pid other : ℤ) (w : W)
        → is_positive pid ≡ true
        → is_child w pid ≡ false
        → is_child (os.waitpid other false w).1 pid ≡ false
