-- ===== src/Manager/RateLimit/Enforcement.antt =====
-- manager.py: what check_rate_limit makes of the counts that its script returns.
use fastapi_tenancy.Prelude.{
  ℕ, ◌+◌, ◌-◌, ◌*◌, ◌≤◌, ◌≡◌, refl, ap₂, Text, none, List, [], ◌∷◌, length, map, arith,
}
use fastapi_tenancy.Prelude.Dict.{Dict, put, length-put}
use fastapi_tenancy.Core.Types.{Tenant}
use fastapi_tenancy.Core.Exceptions.{ok}
use fastapi_tenancy.Manager.RateLimit.{RateLimiter, check_rate_limit}
use fastapi_tenancy.Manager.RateLimit.Window.{
  Window, second, live, evict_older, rate_limit_lua, check, replies,
}

length-evict_older : (n : ℕ) (d : Dict ℕ) → length (evict_older n d) ≤ length d
length-evict_older n [] = omega arith
length-evict_older n (e ∷ d) = ground (arith, length-evict_older n d)

length-live : (now : ℕ) (w : Window) → length (live now w) ≤ length w.members
unfolding live
length-live now w = ground arith

length-put-le : (k : Text) (v : ℕ) (d : Dict ℕ) → length (put k v d) ≤ length d + 1
length-put-le k v d = ground (arith, length-put k v d)

rate_limit_lua-le :
    (now win_start limit window : ℕ) (member : Text) (w : Window)
    → length w.members ≤ limit
    → ((rate_limit_lua now win_start limit window member w).0 ≤ limit)
      × (length (rate_limit_lua now win_start limit window member w).1.members ≤ limit)
unfolding rate_limit_lua
rate_limit_lua-le now win_start limit window member w h =
    let d = evict_older win_start (live now w) in
    let kept = length-evict_older win_start (live now w) in
    let shorter = length-live now w in
    (ground (arith, kept, shorter), ground (arith, kept, shorter, length-put-le member now d))

check-ok :
    (l : RateLimiter) (window : ℕ) (t : Tenant) (now : ℕ) (member : Text) (w : Window)
    → length w.members ≤ l.rate_limit_per_minute
    → ((check l window t now member w).0 ≡ ok tt)
      × (length (check l window t now member w).1.members ≤ l.rate_limit_per_minute)
unfolding check check_rate_limit
check-ok l window t now member w h =
    let limit = l.rate_limit_per_minute in
    let bounds = rate_limit_lua-le now (now - window * second) limit window member w h in
    (ground (arith, bounds), ground (arith, bounds))

granted :
    (l : RateLimiter) (window : ℕ) (t : Tenant) (calls : List (ℕ × Text)) (w : Window)
    → length w.members ≤ l.rate_limit_per_minute
    → replies l window t calls w ≡ map (λ _. ok tt) calls
unfolding replies
granted l window t [] w h = refl
granted l window t ((now, member) ∷ calls) w h =
    let (r, bound) = check-ok l window t now member w h in
    ap₂ ◌∷◌ r (granted l window t calls (check l window t now member w).1 bound)

-- With the script that the source gives to Redis, no sequence of calls, of any length and at any
-- times, is ever refused while Redis answers: the script returns the limit itself where it denies a
-- request, and only a larger count is an error.
pub replies-ok :
    (l : RateLimiter) (window : ℕ) (t : Tenant) (calls : List (ℕ × Text))
    → replies l window t calls (record { members = []; expires_at = none }) ≡ map (λ _. ok tt) calls
replies-ok l window t calls = granted l window t calls _ (omega arith)
