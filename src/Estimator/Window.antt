-- ===== src/Estimator/Window.antt =====
-- mujina-miner/src/types/hashrate_estimator.rs: what an estimator knows after a history of shares.
use mujina.Common.{ℕ, ◌+◌, ◌-◌, ◌%◌, ◌^◌, ◌≤◌, ◌<◌, ◌≡◌, sym, ap, ◌∙◌, arith}
use mujina.Common.{true, List, [], ◌∷◌, ◌++◌, leb, length, drop}
use mujina.Estimator.{HashrateEstimator, prune, prune_before, enforce, cutoff_of, record_at}
use mujina.Estimator.Samples.{
  Ordered, work_of, since, newest, work_of-since, since_again, since-append, since-early, early,
  Ordered-drop, drop-append_one, newest-since, newest_again, enforce-newest, work_of-drop,
  work_of-append, prune-since,
}

-- The estimator holds what it is to keep of the shares, and the work of that in all.
pub record Keeps (est : HashrateEstimator) (cutoff : ℕ) (shares : List (ℕ × ℕ)) : Type 0 where
  pub keeps_samples : est.samples ≡ since cutoff (newest est.max_samples shares)
  pub keeps_total : est.total_work ≡ work_of (since cutoff (newest est.max_samples shares))

work_of-kept :
    (c n : ℕ) (shares : List (ℕ × ℕ)) → work_of (since c (newest n shares)) ≤ work_of shares
unfolding newest
work_of-kept c n shares =
    let a = work_of-since c (drop (length shares - n) shares) in
    let b = work_of-drop (length shares - n) shares in omega arith

Ordered-kept :
    (c n : ℕ) (shares : List (ℕ × ℕ)) → Ordered shares → Ordered (since c (newest n shares))
unfolding newest
Ordered-kept c n shares ord =
    let cut = Ordered-drop (length shares - n) shares ord in
    rw (since-early c (drop (length shares - n) shares) cut)
      (Ordered-drop (early c (drop (length shares - n) shares)) _ cut)

prune-kept :
    (c d n : ℕ) (shares : List (ℕ × ℕ))
    → Ordered shares
    → work_of shares < 2 ^ 256
    → c ≤ d
    → prune d (since c (newest n shares)) (work_of (since c (newest n shares)))
      ≡ (since d (newest n shares), work_of (since d (newest n shares)))
prune-kept c d n shares ord lt le =
    let less = work_of-kept c n shares in
    prune-since d (since c (newest n shares)) (Ordered-kept c n shares ord) (omega arith)
    ∙ ap (λ s. (s, work_of s)) (since_again c d (newest n shares) le)

-- Samples are dropped as the cutoff moves on.
pub prune_before-Keeps :
    (est : HashrateEstimator) (c d : ℕ) (shares : List (ℕ × ℕ))
    → Ordered shares
    → work_of shares < 2 ^ 256
    → c ≤ d
    → Keeps est c shares
    → Keeps (prune_before est d) d shares
unfolding prune_before
prune_before-Keeps est c d shares ord lt le k =
    let e : prune d est.samples est.total_work ≡ (
      since d (newest est.max_samples shares),
      work_of (since d (newest est.max_samples shares)),
    ) =
      rw (k.keeps_samples, k.keeps_total) (prune-kept c d est.max_samples shares ord lt le) in
    record { keeps_samples = ap (λ p. p.0) e; keeps_total = ap (λ p. p.1) e }

-- What is kept with one more share, and room for it.
kept_one_more :
    (d n at work : ℕ) (shares : List (ℕ × ℕ))
    → d ≤ at
    → since d (newest n shares) ++ (at, work) ∷ [] ≡ since d (newest n shares ++ (at, work) ∷ [])
unfolding since
kept_one_more d n at work shares le =
    let one : since d ((at, work) ∷ []) ≡ (at, work) ∷ [] = ground arith in
    sym (
      since-append d (newest n shares) ((at, work) ∷ [])
      ∙ ap (λ y. since d (newest n shares) ++ y) one)

Ordered-one_more :
    (n : ℕ) (shares : List (ℕ × ℕ)) (x : ℕ × ℕ)
    → Ordered (shares ++ x ∷ [])
    → Ordered (newest n shares ++ x ∷ [])
unfolding newest
Ordered-one_more n shares x ord =
    let k = length shares - n in
    let same : drop k shares ++ x ∷ [] ≡ drop k (shares ++ x ∷ []) =
      sym (drop-append_one k shares (x ∷ []) (omega arith)) in
    rw same (Ordered-drop k (shares ++ x ∷ []) ord)

newest-kept :
    (d n at work : ℕ) (shares : List (ℕ × ℕ))
    → Ordered (shares ++ (at, work) ∷ [])
    → d ≤ at
    → newest n (since d (newest n shares) ++ (at, work) ∷ [])
      ≡ since d (newest n (shares ++ (at, work) ∷ []))
newest-kept d n at work shares ord le =
    ap (newest n) (kept_one_more d n at work shares le)
    ∙ newest-since d n (newest n shares ++ (at, work) ∷ [])
        (Ordered-one_more n shares (at, work) ord)
    ∙ ap (since d) (newest_again n shares (at, work))

enforce-kept :
    (d n at work : ℕ) (shares : List (ℕ × ℕ))
    → Ordered (shares ++ (at, work) ∷ [])
    → work_of (shares ++ (at, work) ∷ []) < 2 ^ 256
    → d ≤ at
    → enforce n
        (since d (newest n shares) ++ (at, work) ∷ [])
        ((work_of (since d (newest n shares)) + work) % 2 ^ 256)
      ≡ (
        since d (newest n (shares ++ (at, work) ∷ [])),
        work_of (since d (newest n (shares ++ (at, work) ∷ []))),
      )
unfolding work_of
enforce-kept d n at work shares ord lt le =
    let samples = since d (newest n shares) in
    let less = work_of-kept d n shares in
    let sum = work_of-append samples ((at, work) ∷ []) in
    let all = work_of-append shares ((at, work) ∷ []) in
    let total : (work_of samples + work) % 2 ^ 256 ≡ work_of (samples ++ (at, work) ∷ []) =
      omega arith in
    ap (enforce n (samples ++ (at, work) ∷ [])) total
    ∙ enforce-newest n (samples ++ (at, work) ∷ []) (omega arith)
    ∙ ap (λ s. (s, work_of s)) (newest-kept d n at work shares ord le)

pub record_at-Keeps :
    (est : HashrateEstimator) (c at work : ℕ) (shares : List (ℕ × ℕ))
    → Ordered shares
    → Ordered (shares ++ (at, work) ∷ [])
    → work_of (shares ++ (at, work) ∷ []) < 2 ^ 256
    → work_of shares < 2 ^ 256
    → est.window ≤ at
    → c ≤ at - est.window
    → Keeps est c shares
    → Keeps (record_at est at work) (at - est.window) (shares ++ (at, work) ∷ [])
unfolding record_at cutoff_of
record_at-Keeps est c at work shares before ord lt less window le k =
    let d = at - est.window in
    let pruned = prune_before est d in
    let kept = prune_before-Keeps est c d shares before less le k in
    let e : enforce est.max_samples (pruned.samples ++ (at, work) ∷ [])
          ((pruned.total_work + work) % 2 ^ 256)
        ≡ (
          since d (newest est.max_samples (shares ++ (at, work) ∷ [])),
          work_of (since d (newest est.max_samples (shares ++ (at, work) ∷ []))),
        ) =
      rw (kept.keeps_samples, kept.keeps_total)
        (enforce-kept d est.max_samples at work shares ord lt (omega arith)) in
    let cut : leb est.window at ≡ true = ground arith in
    rw cut (record { keeps_samples = ap (λ p. p.0) e; keeps_total = ap (λ p. p.1) e })
