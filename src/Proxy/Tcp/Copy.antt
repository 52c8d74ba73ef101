-- ===== src/Proxy/Tcp/Copy.antt =====
-- What `copyWithStats` counts, and what it delivers.
use packetpony.Base.{
  ℕ, ◌+◌, ◌≤◌, ◌<◌, ◌%◌, ◌^◌, ◌≡◌, ◌∙◌, ap, refl, inl, inr, List, [], ◌∷◌, ◌++◌, some, none, arith,
  Bool-cases, ◌==◌,
}
use packetpony.Base.Text.{Text}
use packetpony.Ratelimit.Manager
use packetpony.Ratelimit.Manager.{RateLimitManager}
use packetpony.Proxy.Tcp.{TcpProxy, emit, Chunk, Progress, goes_on, ended, copy_round}
use packetpony.Proxy.Tcp.{copy_with_stats, eof}

-- The bytes that the rounds read.
abbrev pub total_read : List (Chunk × ℕ) → ℕ
total_read [] = 0
total_read ((k, now) ∷ ks) = k.read + total_read ks

-- A write returns at most the length of its buffer.
abbrev pub AreWrites : List (Chunk × ℕ) → Type 0
AreWrites [] = Unit {0}
AreWrites ((k, now) ∷ ks) = (k.wrote ≤ k.read) × AreWrites ks

-- From `w` and `c` on, both count `n` bytes.
abbrev pub Counts : ℕ → ℕ → ℕ → TcpProxy × ℕ × ℕ × Progress → Type 0
Counts bound w c (p, written, counter, progress) =
    (n : ℕ) × (n ≤ bound) × (written ≡ (w + n) % 2 ^ 64) × (counter ≡ (c + n) % 2 ^ 64)

copy_round-Counts :
    (p : TcpProxy) (ip : Text) (w c : ℕ) (k : Chunk) (now : ℕ)
    → w < 2 ^ 64
    → c < 2 ^ 64
    → k.wrote ≤ k.read
    → Counts k.read w c (copy_round p ip w c k now)
unfolding copy_round
copy_round-Counts p ip w c k now hw hc le = elim (Bool-cases (k.read == 0)) [
  | inl e ↦ rw (e, copy_round) (0, omega arith, omega arith, omega arith)
  | inr e ↦ elim (Bool-cases (Manager.allow_bandwidth p.limiter ip k.read now).1) [
    | inr a ↦ rw (e, copy_round) (rw a (0, omega arith, omega arith, omega arith))
    | inl a ↦ rw (e, copy_round) (rw a (k.wrote, le, refl, refl))
  ]
]

-- If no write returns more than the length of its buffer, the bytes that a copy returns and those
-- that it adds to its counter are the same, and no more than it has read, as `int64`.
pub copy_with_stats-Counts :
    (ks : List (Chunk × ℕ)) (p : TcpProxy) (ip : Text) (w c : ℕ)
    → w < 2 ^ 64
    → c < 2 ^ 64
    → AreWrites ks
    → Counts (total_read ks) w c (copy_with_stats p ip w c ks)
unfolding copy_with_stats
copy_with_stats-Counts [] p ip w c hw hc h = (0, omega arith, omega arith, omega arith)
copy_with_stats-Counts ((k, now) ∷ ks) p ip w c hw hc h =
    continued (copy_round p ip w c k now)
      (λ p' w' c' hw' hc'. copy_with_stats-Counts ks p' ip w' c' hw' hc' h.1)
      (copy_round-Counts p ip w c k now hw hc h.0)
  where
    continued :
        (r : TcpProxy × ℕ × ℕ × Progress)
        → ((p' : TcpProxy) (w' c' : ℕ)
            → w' < 2 ^ 64
            → c' < 2 ^ 64
            → Counts (total_read ks) w' c' (copy_with_stats p' ip w' c' ks))
        → Counts k.read w c r
        → Counts (k.read + total_read ks) w c (elim r.3 as (λ x. TcpProxy × ℕ × ℕ × Progress) [
          | goes_on ↦ copy_with_stats r.0 ip r.1 r.2 ks
          | ended e ↦ (r.0, r.1, r.2, ended e)
        ])
    continued (p', w', c', ended e) ih (n, le, ew, ec) = (n, omega (arith, le), ew, ec)
    continued (p', w', c', goes_on) ih (n, le, ew, ec) =
        let (m, le', ew', ec') = ih p' w' c' (omega (arith, ew)) (omega (arith, ec)) in
        (n + m, omega (arith, le, le'), omega (arith, ew, ew'), omega (arith, ec, ec'))

-- Rounds in which all that was read is written, with no error.
abbrev pub AreClean : List (Chunk × ℕ) → Type 0
AreClean [] = Unit {0}
AreClean ((k, now) ∷ ks) =
    (k.read_error ≡ none) × (k.write_error ≡ none) × (k.wrote ≡ k.read) × AreClean ks

abbrev pub at_end : Chunk
at_end = record { read = 0; read_error = some eof; wrote = 0; write_error = none }

clean_round :
    (p : TcpProxy) (ip : Text) (w c : ℕ) (k : Chunk) (now : ℕ)
    → p.limiter.bandwidth_limiter ≡ none
    → w < 2 ^ 64
    → c < 2 ^ 64
    → k.read_error ≡ none
    → k.write_error ≡ none
    → k.wrote ≡ k.read
    → (q : TcpProxy) × (q.limiter.bandwidth_limiter ≡ none)
      × (copy_round p ip w c k now ≡ (q, (w + k.read) % 2 ^ 64, (c + k.read) % 2 ^ 64, goes_on))
unfolding copy_round Manager.allow_bandwidth Manager.is_bandwidth_over_limit
clean_round p ip w c k now none_ hw hc re we all = elim (Bool-cases (k.read == 0)) [
  | inl e ↦ (p, none_, ground arith)
  | inr e ↦ (emit [] p, none_, rw (e, copy_round, none_) (ground arith))
]

-- Without a bandwidth limit a copy whose reads and writes all succeed, each write in full, returns
-- without an error at the end of its source, and both its counts have grown by every byte that it
-- read, as `int64`.
pub copy_with_stats_complete :
    (ks : List (Chunk × ℕ)) (p : TcpProxy) (ip : Text) (w c now : ℕ)
    → w < 2 ^ 64
    → c < 2 ^ 64
    → p.limiter.bandwidth_limiter ≡ none
    → AreClean ks
    → (q : TcpProxy) × (copy_with_stats p ip w c (ks ++ (at_end, now) ∷ [])
        ≡ (q, (w + total_read ks) % 2 ^ 64, (c + total_read ks) % 2 ^ 64, ended none))
unfolding copy_with_stats copy_round
copy_with_stats_complete [] p ip w c now hw hc none_ h = (p, ground arith)
copy_with_stats_complete ((k, t) ∷ ks) p ip w c now hw hc none_ (re, we, all, h) =
    let (q, still, e) = clean_round p ip w c k t none_ hw hc re we all in
    let (q', e') =
      copy_with_stats_complete ks q ip ((w + k.read) % 2 ^ 64) ((c + k.read) % 2 ^ 64) now
        (omega arith) (omega arith) still h in
    (q', ap after e ∙ e' ∙ ground arith)
  where
    after : TcpProxy × ℕ × ℕ × Progress → TcpProxy × ℕ × ℕ × Progress
    after r = elim r.3 [
      | goes_on ↦ copy_with_stats r.0 ip r.1 r.2 (ks ++ (at_end, now) ∷ [])
      | ended e ↦ (r.0, r.1, r.2, ended e)
    ]
