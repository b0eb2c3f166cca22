-- ===== src/Server/Run/Waiting.antt =====
-- The tasks of src/server/server.rs that have logged a change and not stored it.
use peach_db.Base.{◌≡◌, refl, sym, ap, ◌∙◌, List, [], ◌∷◌, ◌++◌, All}
use peach_db.Db.WalCodec.{WalEntry}
use peach_db.Server.Connection.{Turn, again, leave}
use peach_db.Server.Run.{Task, serving, storing, ended, Server, task_after}
use mathlib.Core.List.{append_assoc, Perm, perm_middle, perm_append_singleton}
use mathlib.Core.List.Perm

-- The entry that a task has logged and not stored.
abbrev pub waits : Task → List WalEntry
waits (serving c) = []
waits (storing w c) = w ∷ []
waits (ended r c) = []

abbrev pub waiting : List Task → List WalEntry
waiting [] = []
waiting (t ∷ ts) = waits t ++ waiting ts

pub waiting-append : (ts us : List Task) → waiting (ts ++ us) ≡ waiting ts ++ waiting us
waiting-append [] us = refl
waiting-append (t ∷ ts) us =
    ap (λ l. waits t ++ l) (waiting-append ts us)
    ∙ sym (append_assoc (waits t) (waiting ts) (waiting us))

pub task_after-waits : (t : Turn) → waits (task_after t) ≡ []
task_after-waits (again c s) = refl
task_after-waits (leave r c s) = refl

pub All-split {ℓ κ} :
    {A : Type ℓ} (P : A → Type κ) (xs : List A) (y : A) (zs : List A)
    → All P (xs ++ y ∷ zs)
    → All P xs × P y × All P zs
All-split P [] y zs (h, hs) = (tt, h, hs)
All-split P (x ∷ xs) y zs (h, hs) =
    let (front, here, back) = All-split P xs y zs hs in ((h, front), here, back)

pub All-join {ℓ κ} :
    {A : Type ℓ} (P : A → Type κ) (xs : List A) (y : A) (zs : List A)
    → All P xs
    → P y
    → All P zs
    → All P (xs ++ y ∷ zs)
All-join P [] y zs front here back = (here, back)
All-join P (x ∷ xs) y zs (h, front) here back = (h, All-join P xs y zs front here back)

module _ {ℓ} {A : Type ℓ} (w : A) (ws vs p q : List A) where
  pub perm_logs : Perm ws (vs ++ (p ++ q)) → Perm (ws ++ w ∷ []) (vs ++ (p ++ w ∷ q))
  perm_logs h = Perm.trans (perm_append_singleton w ws) (
      Perm.trans (Perm.cons w h) (
        rw (← append_assoc vs p q, ← append_assoc vs p (w ∷ q))
          (Perm.symm (perm_middle (vs ++ p) q))))

  pub perm_stores : Perm ws (vs ++ (p ++ w ∷ q)) → Perm ws ((vs ++ w ∷ []) ++ (p ++ q))
  perm_stores h =
      Perm.trans h (rw (append_assoc vs (w ∷ []) (p ++ q)) (Perm.append_left vs (perm_middle p q)))

pub waiting-at :
    (b : Server) (before behind : List Task) (t : Task)
    → b.tasks ≡ before ++ t ∷ behind
    → waiting b.tasks ≡ waiting before ++ (waits t ++ waiting behind)
waiting-at b before behind t here = ap waiting here ∙ waiting-append before (t ∷ behind)

pub waiting-none :
    (before behind : List Task) (u : Task)
    → waits u ≡ []
    → waiting (before ++ u ∷ behind) ≡ waiting before ++ waiting behind
waiting-none before behind u no_u =
    waiting-append before (u ∷ behind) ∙ ap (λ l. waiting before ++ (l ++ waiting behind)) no_u
