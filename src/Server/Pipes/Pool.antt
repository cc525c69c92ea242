-- ===== src/Server/Pipes/Pool.antt =====
-- The pool of server/serControl.go as two lists of pipes, and its four operations on nodes.
use lunnel.Base.{
  ℕ, suc, ◌+◌, ◌%◌, ◌^◌, ◌<◌, ◌≤◌, ◌≡◌, refl, ap, true, false, none, [], ◌∷◌, ◌++◌, arith, length,
}
use lunnel.Server.Pipes.{
  Ptr, Heap, Control, add_idle_pipe, add_busy_pipe, remove_idle_node, remove_busy_node,
}
use lunnel.Server.Pipes.Segment.{
  Seg-append, head_or, Cells, has, has-append, Distinct, Apart, Apart-has, Apart-sym_cons, Below,
  Below-fresh, Below-suc,
}
use lunnel.Server.Pipes.Unlink.{IsDll, SameOutside, unlink-IsDll, push_front-IsDll, IsDll-frame}

-- The nodes of the two lists are distinct and allocated, and the counter counts the idle ones.
pub record IsPool (c : Control) (bs xs : Cells) : Type 0 where
  pub busy : IsDll c.nodes c.busy_pipes bs
  pub idle : IsDll c.nodes c.idle_pipes xs
  pub apart : Apart bs xs
  pub busy_below : Below c.fresh bs
  pub idle_below : Below c.fresh xs
  pub counted : c.idle_count ≡ length xs % 2 ^ 64
  pub room : length bs + length xs ≤ c.fresh

Apart-has_right : (a : ℕ) (xs ys : Cells) → Apart xs ys → has a ys ≡ true → has a xs ≡ false
Apart-has_right a [] ys p i = refl
Apart-has_right a ((b, s) ∷ xs) ys p i = ground (arith, Apart-has_right a xs ys p.1, same)
  where
    same : a ≡ b → has a ys ≡ has b ys
    same e = ap (λ (t : ℕ). has t ys) e

has-remove :
    (b a s : ℕ) (pre post : Cells)
    → has b (pre ++ (a, s) ∷ post) ≡ false
    → has b (pre ++ post) ≡ false
has-remove b a s pre post o =
    ground (arith, has-append b pre ((a, s) ∷ post), has-append b pre post)

Apart-remove_right :
    (xs : Cells) (a s : ℕ) (pre post : Cells)
    → Apart xs (pre ++ (a, s) ∷ post)
    → Apart xs (pre ++ post)
Apart-remove_right [] a s pre post p = tt
Apart-remove_right ((b, t) ∷ xs) a s pre post p =
    (has-remove b a s pre post p.0, Apart-remove_right xs a s pre post p.1)

Apart-remove_left :
    (a s : ℕ) (pre post ys : Cells) → Apart (pre ++ (a, s) ∷ post) ys → Apart (pre ++ post) ys
Apart-remove_left a s [] post ys p = p.1
Apart-remove_left a s ((b, t) ∷ pre) post ys p = (p.0, Apart-remove_left a s pre post ys p.1)

Below-remove :
    (n a s : ℕ) (pre post : Cells) → Below n (pre ++ (a, s) ∷ post) → Below n (pre ++ post)
Below-remove n a s [] post p = p.1
Below-remove n a s ((b, t) ∷ pre) post p = (p.0, Below-remove n a s pre post p.1)

length-remove :
    (a s : ℕ) (pre post : Cells) → length (pre ++ (a, s) ∷ post) ≡ suc (length (pre ++ post))
length-remove a s [] post = refl
length-remove a s ((b, t) ∷ pre) post = ap suc (length-remove a s pre post)

Distinct-middle :
    (a s : ℕ) (pre post : Cells) → Distinct (pre ++ (a, s) ∷ post) → has a (pre ++ post) ≡ false
Distinct-middle a s [] post d = d.0
Distinct-middle a s ((b, t) ∷ pre) post d =
    ground (arith, has-append b pre ((a, s) ∷ post), Distinct-middle a s pre post d.1)

-- The node at a place of a list: where it leads, and its pipe.
pub node-middle :
    (h : Heap) (head : Ptr) (a s : ℕ) (pre post : Cells)
    → IsDll h head (pre ++ (a, s) ∷ post)
    → ((h a).next ≡ head_or post none) × ((h a).pipe ≡ s)
node-middle h head a s pre post v =
    let (front, back) = Seg-append pre ((a, s) ∷ post) h none none v.links in
    (ap (λ n. n.next) back.0, ap (λ n. n.pipe) back.0)

-- `addIdlePipe` puts a new node with the pipe at the head of the idle list, in a pool in order.
pub add_idle_pipe-IsPool :
    (p : ℕ) (c : Control) (bs xs : Cells)
    → IsPool c bs xs
    → IsPool (add_idle_pipe p c) bs ((c.fresh, p) ∷ xs)
unfolding add_idle_pipe
add_idle_pipe-IsPool p c bs xs v =
    let new = Below-fresh c.fresh xs v.idle_below in
    let (list, same) = push_front-IsDll c.nodes c.idle_pipes c.fresh p xs v.idle new in
    let out = Below-fresh c.fresh bs v.busy_below in
    let apart = Apart-sym_cons c.fresh p bs xs v.apart out in
    record {
      busy =
          IsDll-frame c.nodes _ c.busy_pipes bs v.busy (λ b i. same b (Apart-has b bs _ apart i));
      idle = list;
      apart = apart;
      busy_below = Below-suc c.fresh bs v.busy_below;
      idle_below = (omega arith, Below-suc c.fresh xs v.idle_below);
      counted = omega (arith, v.counted);
      room = omega (arith, v.room);
    }

-- `addBusyPipe` puts a new node with the pipe at the head of the busy list, in a pool in order.
pub add_busy_pipe-IsPool :
    (p : ℕ) (c : Control) (bs xs : Cells)
    → IsPool c bs xs
    → IsPool (add_busy_pipe p c) ((c.fresh, p) ∷ bs) xs
unfolding add_busy_pipe
add_busy_pipe-IsPool p c bs xs v =
    let new = Below-fresh c.fresh bs v.busy_below in
    let (list, same) = push_front-IsDll c.nodes c.busy_pipes c.fresh p bs v.busy new in
    let out = Below-fresh c.fresh xs v.idle_below in
    record {
      busy = list;
      idle =
          IsDll-frame c.nodes _ c.idle_pipes xs v.idle
            (λ b i. same b (Apart-has_right b ((c.fresh, p) ∷ bs) xs (out, v.apart) i));
      apart = (out, v.apart);
      busy_below = (omega arith, Below-suc c.fresh bs v.busy_below);
      idle_below = Below-suc c.fresh xs v.idle_below;
      counted = v.counted;
      room = omega (arith, v.room);
    }

-- `removeIdleNode` on a pool in order takes a node of the idle list out of it and keeps the pool
-- in order; the node is in no place of the list any more, and itself stays as it was.
pub remove_idle_node-IsPool :
    (a s : ℕ) (c : Control) (bs pre post : Cells)
    → IsPool c bs (pre ++ (a, s) ∷ post)
    → IsPool (remove_idle_node a c) bs (pre ++ post)
      × (has a (pre ++ post) ≡ false)
      × SameOutside (pre ++ post) c.nodes (remove_idle_node a c).nodes
unfolding remove_idle_node
remove_idle_node-IsPool a s c bs pre post v =
    let (list, same) = unlink-IsDll c.nodes c.idle_pipes a s post pre v.idle in
    let apart = Apart-remove_right bs a s pre post v.apart in
    let size = length-remove a s pre post in
    (
      record {
        busy =
            IsDll-frame c.nodes _ c.busy_pipes bs v.busy (λ b i. same b (Apart-has b bs _ apart i));
        idle = list;
        apart = apart;
        busy_below = v.busy_below;
        idle_below = Below-remove c.fresh a s pre post v.idle_below;
        counted = omega (arith, v.counted, size);
        room = omega (arith, v.room, size);
      },
      Distinct-middle a s pre post v.idle.distinct,
      same,
    )

-- `removeBusyNode` on a pool in order takes a node of the busy list out of it and keeps the pool
-- in order, the counter of the idle pipes included; the node itself stays as it was.
pub remove_busy_node-IsPool :
    (a s : ℕ) (c : Control) (pre post xs : Cells)
    → IsPool c (pre ++ (a, s) ∷ post) xs
    → IsPool (remove_busy_node a c) (pre ++ post) xs
      × (has a (pre ++ post) ≡ false)
      × SameOutside (pre ++ post) c.nodes (remove_busy_node a c).nodes
unfolding remove_busy_node
remove_busy_node-IsPool a s c pre post xs v =
    let (list, same) = unlink-IsDll c.nodes c.busy_pipes a s post pre v.busy in
    let apart = Apart-remove_left a s pre post xs v.apart in
    let size = length-remove a s pre post in
    (
      record {
        busy = list;
        idle =
            IsDll-frame c.nodes _ c.idle_pipes xs v.idle
              (λ b i. same b (Apart-has_right b (pre ++ post) xs apart i));
        apart = apart;
        busy_below = Below-remove c.fresh a s pre post v.busy_below;
        idle_below = v.idle_below;
        counted = v.counted;
        room = omega (arith, v.room, size);
      },
      Distinct-middle a s pre post v.busy.distinct,
      same,
    )

-- A node that is in no list keeps its fields when another one is added.
pub add_idle_pipe-same :
    (p a : ℕ) (c : Control) (bs xs : Cells)
    → IsPool c bs xs
    → has a xs ≡ false
    → a < c.fresh
    → (add_idle_pipe p c).nodes a ≡ c.nodes a
unfolding add_idle_pipe
add_idle_pipe-same p a c bs xs v out old =
    let new = Below-fresh c.fresh xs v.idle_below in
    (push_front-IsDll c.nodes c.idle_pipes c.fresh p xs v.idle new).1 a (ground arith)

pub Below-middle : (n a s : ℕ) (pre post : Cells) → Below n (pre ++ (a, s) ∷ post) → a < n
Below-middle n a s [] post b = b.0
Below-middle n a s ((c, t) ∷ pre) post b = Below-middle n a s pre post b.1

pub has-middle : (a s : ℕ) (pre post : Cells) → has a (pre ++ (a, s) ∷ post) ≡ true
has-middle a s [] post = ground arith
has-middle a s ((b, t) ∷ pre) post = ground (arith, has-middle a s pre post)
