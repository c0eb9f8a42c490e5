-- ===== src/Exec/Edit/Atomic.antt =====
-- A crash in the middle of `atomicWrite`: its writes as steps of the file system.
use sentnodes_agent.Base.{ℕ, Option, none, some, take, ◌≡◌, ◌⊎◌, inl, inr, refl, arith}
use sentnodes_agent.Base.Text.{Text}
use sentnodes_agent.Exec.Edit.{Files, Faults, rename_temp, write_temp, atomic_write}

-- How far a call is; `stopped` is a call that has returned an error.
pub data Stage : Type 0 where
  writing written renamed stopped : Stage

-- A call of `atomicWrite` on `bytes` under way.
pub record Write : Type 0 where
  pub stage : Stage
  pub files : Files

-- What the file system does next. The bytes reach the temporary file in pieces; the rename is one
-- step.
pub data Step (bytes : Text) : Write → Write → Type 0 where
  piece :
      (f : Files) (n : ℕ)
      → Step bytes
          (record { stage = writing; files = f })
          (record { stage = writing; files = record f { temp = some (take n bytes) } })
  whole :
      (f : Files)
      → Step bytes
          (record { stage = writing; files = f })
          (record { stage = written; files = record f { temp = some bytes } })
  write_fails :
      (f : Files) (left : Option Text)
      → Step bytes
          (record { stage = writing; files = f })
          (record { stage = stopped; files = record f { temp = left } })
  rename :
      (f : Files) (t : Text)
      → f.temp ≡ some t
      → Step bytes
          (record { stage = written; files = f })
          (record { stage = renamed; files = record { config = t; temp = none } })
  rename_fails :
      (f : Files)
      → Step bytes (record { stage = written; files = f }) (record { stage = stopped; files = f })

abbrev pub begin : Files → Write
begin f = record { stage = writing; files = f }

pub data Reach (f : Files) (bytes : Text) : Write → Type 0 where
  here : Reach f bytes (begin f)
  next : {v w : Write} → Reach f bytes v → Step bytes v w → Reach f bytes w

-- Up to the rename the configuration is the old one, and the temporary file is whole once it is
-- written.
abbrev Keeps : Files → Text → Stage → Files → Type 0
Keeps f bytes writing g = g.config ≡ f.config
Keeps f bytes written g = (g.config ≡ f.config) × (g.temp ≡ some bytes)
Keeps f bytes renamed g = g.config ≡ bytes
Keeps f bytes stopped g = g.config ≡ f.config

Step-Keeps :
    (f : Files) {bytes : Text} {v w : Write}
    → Step bytes v w
    → Keeps f bytes v.stage v.files
    → Keeps f bytes w.stage w.files
Step-Keeps f (piece g n) k = k
Step-Keeps f (whole g) k = (k, refl)
Step-Keeps f (write_fails g left) k = k
Step-Keeps f (rename g t e) k = ground (arith, k.1)
Step-Keeps f (rename_fails g) k = k.0

Reach-Keeps :
    (f : Files) {bytes : Text} {w : Write} → Reach f bytes w → Keeps f bytes w.stage w.files
Reach-Keeps f here = refl
Reach-Keeps f (next r s) = Step-Keeps f s (Reach-Keeps f r)

Keeps-whole :
    (f g : Files) (bytes : Text) (st : Stage)
    → Keeps f bytes st g
    → (g.config ≡ f.config) ⊎ (g.config ≡ bytes)
Keeps-whole f g bytes writing k = inl k
Keeps-whole f g bytes written k = inl k.0
Keeps-whole f g bytes renamed k = inr k
Keeps-whole f g bytes stopped k = inl k

-- Wherever a write of config.toml is interrupted, the file is the old one or the new one, whole.
pub Reach-whole :
    (f : Files) (bytes : Text) (w : Write)
    → Reach f bytes w
    → (w.files.config ≡ f.config) ⊎ (w.files.config ≡ bytes)
Reach-whole f bytes w r = Keeps-whole f w.files bytes w.stage (Reach-Keeps f r)

-- The state in which a call with an error or without has returned.
abbrev pub returned : Files × Option Text → Write
returned (g, none) = record { stage = renamed; files = g }
returned (g, some e) = record { stage = stopped; files = g }

rename_temp-Reach :
    (r : Option Text) (f : Files) (bytes : Text) → Reach f bytes (returned (rename_temp r f bytes))
rename_temp-Reach none f bytes = next (next here (whole f)) (rename _ bytes refl)
rename_temp-Reach (some e) f bytes = next (next here (whole f)) (rename_fails _)

write_temp-Reach :
    (w : Option (Text × Option Text)) (r : Option Text) (f : Files) (bytes : Text)
    → Reach f bytes (returned (write_temp w r f bytes))
write_temp-Reach none r f bytes = rename_temp-Reach r f bytes
write_temp-Reach (some (e, left)) r f bytes = next here (write_fails f left)

-- `atomicWrite` refines the steps of the file system: whatever fails, what it returns is a state that
-- they reach, with the rename done exactly when it returns no error.
pub atomic_write-Reach :
    (faults : Faults) (f : Files) (bytes : Text)
    → Reach f bytes (returned (atomic_write faults f bytes))
unfolding atomic_write
atomic_write-Reach faults f bytes = write_temp-Reach faults.write faults.rename f bytes
