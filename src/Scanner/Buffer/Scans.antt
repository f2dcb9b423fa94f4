-- ===== src/Scanner/Buffer/Scans.antt =====
-- Where a match is entered in the buffer, and a match that stops in it.
use mathlib.Core.List.{append_assoc, append-nil}
use projet_prog.Common.{
  ℕ, suc, ◌+◌, ◌*◌, ◌<◌, ◌≡◌, ◌≢◌, refl, sym, ap, ◌∙◌, subst, false, Option, List, [], ◌∷◌, ◌++◌,
  All, All-split, length, length-append, drop, drop-append, ◌==◌, arith,
}
use projet_prog.Common.Words.{IsByte}
use projet_prog.Scanner.{accept, base, class, next_state}
use projet_prog.Scanner.Furthest.{Entry, entry_lem, furthest, furthest-append, furthest-jammed}
use projet_prog.Scanner.Buffer.State.{Guts, eof_pending, matching, pick, previous_state}
use projet_prog.Scanner.Buffer.{act, lex}
use projet_prog.Scanner.Buffer.Runs.{IsOpen, Stops}
use projet_prog.Scanner.Buffer.Held.{Holds}
use projet_prog.Scanner.Buffer.Acts.{Lexes, act_found}
use projet_prog.Scanner.Buffer.Reads.{IsRead}

pub previous_state-append :
    (xs ys : List ℕ) (s p : ℕ) (last : ℕ × ℕ)
    → previous_state (xs ++ ys) s p last
      ≡ previous_state ys
          (previous_state xs s p last).0
          (p + length xs)
          (previous_state xs s p last).1
unfolding previous_state
previous_state-append [] ys s p last = let n : p + 0 ≡ p = omega arith in rw n
previous_state-append (x ∷ xs) ys s p last =
    let n : p + length (x ∷ xs) ≡ suc p + length xs = omega arith in
    rw n (previous_state-append xs ys (next_state s (class x)) (suc p) (pick (s, p) last))

pub pick_twice : (a last : ℕ × ℕ) → pick a (pick a last) ≡ pick a last
unfolding pick
pick_twice a last = ground arith

-- Where a match is entered: `xs` of the text was read, and `ys` is left in the buffer.
pub record Scans {Source : Type 0} (pending : Source → List ℕ) (all front xs ys : List ℕ) (g : Guts)
    (src : Source) (s p : ℕ) : Type 0 where
  pub holds : Holds g front (xs ++ ys)
  pub place : p ≡ length front + length xs
  pub last : ℕ × ℕ
  pub seen : previous_state xs 1 (length front) last ≡ (s, g.last)
  pub is_open : IsOpen s
  pub left : all ≡ (xs ++ ys) ++ pending src
  pub ended : g.status ≡ eof_pending → pending src ≡ []

pub Holds-update :
    {g : Guts} {front cs : List ℕ} (q : ℕ) (l : ℕ × ℕ)
    → Holds g front cs
    → Holds (record g { c_buf_p = q; last = l }) front cs
Holds-update q l h = record {
  junk = h.junk;
  block = h.block;
  chars = h.chars;
  size = h.size;
  room = h.room;
  counted = h.counted;
}

pub block_behind :
    (front xs ys end : List ℕ) (p : ℕ)
    → p ≡ length front + length xs
    → drop p (front ++ ((xs ++ ys) ++ end)) ≡ ys ++ end
block_behind front xs ys end p e =
    rw (e, append_assoc xs ys end, ← append_assoc front xs (ys ++ end), ← length-append front xs)
      (drop-append (front ++ xs) (ys ++ end))

pub append_ne : (xs ys : List ℕ) → ys ≢ [] → xs ++ ys ≢ []
append_ne [] ys n = n
append_ne (x ∷ xs) ys n = λ e. cc

pub same_state :
    (xs : List ℕ) (s p p' : ℕ) (last last' : ℕ × ℕ)
    → (previous_state xs s p last).0 ≡ (previous_state xs s p' last').0
unfolding previous_state
same_state [] s p p' last last' = refl
same_state (x ∷ xs) s p p' last last' =
    same_state xs (next_state s (class x)) (suc p) (suc p') (pick (s, p) last) (pick (s, p') last')

pub seen_furthest :
    (xs zs : List ℕ) (bp : ℕ) {s p : ℕ} (last : ℕ × ℕ) {last' : ℕ × ℕ}
    → previous_state xs 1 bp last ≡ (s, last')
    → p ≡ bp + length xs
    → furthest (xs ++ zs) 1 bp last ≡ furthest zs s p last'
seen_furthest xs zs bp {s} last {last'} e n =
    furthest-append xs zs 1 bp last
    ∙ ap (λ q. furthest zs q.0 (bp + length xs) q.1) e
    ∙ ap (λ m. furthest zs s m last') (sym n)

pub Entry-nul : (s : ℕ) → s < 14 → Entry s 1
unfolding class
Entry-nul s h = entry_lem s 0 h (omega arith)

-- A text that jams at a NUL is matched before it.
pub nul_jams :
    (zs : List ℕ) (s p : ℕ) (last : ℕ × ℕ)
    → next_state s 1 ≡ 13
    → All IsByte zs
    → furthest (0 ∷ zs) s p last ≡ pick (s, p) (pick (s, p) last)
unfolding furthest class
nul_jams zs s p last j w = rw j (
    furthest-jammed zs 13 (suc p) (pick (s, p) last) (omega arith) base_jam w
    ∙ pick_jam
    ∙ sym (pick_twice (s, p) last))
  where
    base_jam : base 13 ≡ 14
    base_jam = unfold base in refl

    pick_jam : {last : ℕ × ℕ} → pick (13, suc p) last ≡ last
    pick_jam = unfold pick accept in refl

-- A text that goes on behind a NUL.
pub nul_seen :
    (ts : List ℕ) (bp : ℕ) (last : ℕ × ℕ)
    → previous_state (ts ++ (0 ∷ [])) 1 bp last ≡ (
      next_state (previous_state ts 1 bp last).0 1,
      pick ((previous_state ts 1 bp last).0, bp + length ts) (previous_state ts 1 bp last).1,
    )
unfolding class
nul_seen ts bp last = previous_state-append ts (0 ∷ []) 1 bp last ∙ (unfold previous_state in refl)

pub is_nonzero : (n : ℕ) → 0 < n → (n == 0) ≡ false
is_nonzero n h = ground arith

module _ {Source : Type 0} (read : ℕ → Source → Option (List ℕ × Source)) (junk : ℕ → List ℕ)
    (pending : Source → List ℕ) (reading : IsRead read pending)
    (new : (n : ℕ) → length (junk n) ≡ n) where
  -- The action of a match in the buffer `b`.
  pub found_in :
      (goto : _) (g : Guts) (front b : List ℕ) (src : Source) (s p : ℕ) (last : ℕ × ℕ)
      → b ≢ []
      → Holds g front b
      → All IsByte (b ++ pending src)
      → furthest (b ++ pending src) 1 (length front) last ≡ pick (s, p) g.last
      → furthest b 1 (length front) last ≡ pick (s, p) g.last
      → (g.status ≡ eof_pending → pending src ≡ [])
      → Lexes pending (b ++ pending src) (act read junk goto (length front) s p g src)
  found_in goto g front [] src s p last n h w e f ended = absurd (n refl)
  found_in goto g front (c ∷ cs) src s p last n h w e f ended =
      act_found pending read junk goto g front c cs src s p last h w e f ended

  pub lex-Stops :
      (all front xs ys : List ℕ) (goto : _) (g : Guts) (src : Source) (s p : ℕ)
      (r : (ℕ × ℕ) × (ℕ × ℕ))
      → Scans pending all front xs ys g src s p
      → All IsByte all
      → Stops ys s p g.last r
      → Lexes pending all
          (act read junk goto (length front) r.0.0 r.0.1 (record g { last = r.1 }) src)
  lex-Stops all front xs ys goto g src s p r sc w (n, stops) =
      let v = subst (All IsByte) sc.left w in
      let u = (All-split IsByte (xs ++ ys) (pending src) v).1 in
      let whole : furthest ((xs ++ ys) ++ pending src) 1 (length front) sc.last ≡ pick r.0 r.1 =
        ap (λ l. furthest l 1 (length front) sc.last) (append_assoc xs ys (pending src))
        ∙ seen_furthest xs (ys ++ pending src) (length front) sc.last sc.seen sc.place
        ∙ stops (pending src) u in
      let inside : furthest (xs ++ ys) 1 (length front) sc.last ≡ pick r.0 r.1 =
        seen_furthest xs ys (length front) sc.last sc.seen sc.place
        ∙ ap (λ l. furthest l s p g.last) (sym (append-nil ys))
        ∙ stops [] tt in
      subst
        (λ l.
          Lexes pending l
            (act read junk goto (length front) r.0.0 r.0.1 (record g { last = r.1 }) src))
        (sym sc.left)
        (found_in goto (record g { last = r.1 }) front (xs ++ ys) src r.0.0 r.0.1 sc.last
          (append_ne xs ys n) (Holds-update g.c_buf_p r.1 sc.holds) v whole inside sc.ended)

  -- The rounds that the fuel is for.
  abbrev pub Rounds : ℕ → List ℕ → Type 0
  Rounds fuel all =
      (front xs ys : List ℕ) (g : Guts) (src : Source) (s p : ℕ)
      → Scans pending all front xs ys g src s p
      → length ys + 2 * length (pending src) + 1 < fuel
      → Lexes pending all (lex read junk fuel matching (length front) s p g src)
