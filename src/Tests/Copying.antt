-- ===== src/Tests/Copying.antt =====
-- A copy whose permissions cannot be set.
use pierre.Base.{◌≡◌, refl, ap, ℕ, ◌+◌, List, [], ◌∷◌, codes, ok, errorf, ok-injective}
use pierre.Base.Exec.{pure, raise}
use pierre.CpTool.{Files, main}
use pierre.CpTool.Closes.{Handles, main_lem}

-- The files that are open, and the next handle.
record Disk : Type 0 where
  handles : List ℕ
  next : ℕ

abbrev without_first : List ℕ → List ℕ
without_first [] = []
without_first (h ∷ hs) = hs

abbrev opens : Disk → Disk
opens d = record { handles = d.next ∷ d.handles; next = d.next + 1 }

unfoldable disk : Files Disk
disk = record {
  clean = λ path. path;
  open_file = λ path d. (ok d.next, opens d);
  stat_mode = λ path. pure 420;
  create = λ path d. (ok d.next, opens d);
  copy = λ to from. pure tt;
  chmod = λ path mode. raise (errorf "operation not permitted");
  close = λ h d. (ok tt, record d { handles = without_first d.handles });
}

disk-Handles : Handles disk (λ d. d.handles)
unfolding disk
disk-Handles = record {
  open_ok = λ path d h e. ap (λ x. x ∷ d.handles) (ok-injective e);
  open_err = λ path d x e. cc;
  create_ok = λ path d h e. ap (λ x. x ∷ d.handles) (ok-injective e);
  create_err = λ path d x e. cc;
  stat_mode = λ path d. refl;
  copy = λ to from d. refl;
  chmod = λ path mode d. refl;
  close = λ h hs d e. ap without_first e;
}

abbrev started : Disk
started = record { handles = 2 ∷ 1 ∷ 0 ∷ []; next = 3 }

main_lem_example :
    (main disk (codes "/reloader" ∷ codes "/etc/frr_reloader/reloader" ∷ []) started).1.handles
    ≡ started.handles
main_lem_example =
    main_lem disk (λ d. d.handles) disk-Handles
      (codes "/reloader" ∷ codes "/etc/frr_reloader/reloader" ∷ []) started
