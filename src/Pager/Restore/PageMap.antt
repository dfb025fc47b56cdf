-- ===== src/Pager/Restore/PageMap.antt =====
-- The bucket map of `pager_restore`: it holds one node for a page, with the last offset that was put.
use custom_db.Prelude.{
  ℕ, ◌%◌, ◌≡◌, refl, false, Option, none, some, List, [], ◌∷◌, ◌==◌, if◌then◌else◌, arith,
  Bool-cases, inl, inr,
}
use custom_db.Pager.State.{Page, update}
use custom_db.Pager.Restore.{
  PageMapNode, page_map_buckets, Buckets, replace_node, put_node, put_page,
}

unfoldable pub find : ℕ → List PageMapNode → Option Page
find n [] = none
find n (node ∷ nodes) =
    let rest = find n nodes in if node.pnum == n then some node.content else rest

-- No page has two nodes, and the nodes are of pages that belong to the bucket.
unfoldable pub IsBucket : ℕ → List PageMapNode → Type 0
unfolding find
IsBucket b [] = Unit
IsBucket b (node ∷ nodes) =
    (node.pnum % page_map_buckets ≡ b) × (find node.pnum nodes ≡ none) × IsBucket b nodes

-- What replacing does, whether or not the page has a node.
abbrev pub Replaced : ℕ → Page → List PageMapNode → Option (List PageMapNode) → Type 0
Replaced n p nodes none = find n nodes ≡ none
Replaced n p nodes (some l) = (m : ℕ) → find m l ≡ (if m == n then some p else find m nodes)

Replaced-step :
    (n : ℕ) (p : Page) (node : PageMapNode) (nodes : List PageMapNode)
    (rest : Option (List PageMapNode))
    → Replaced n p nodes rest
    → Replaced n p (node ∷ nodes) (
        if node.pnum == n
        then some (record node { content = p } ∷ nodes)
        else elim rest [ none ↦ none | some l ↦ some (node ∷ l) ])
unfolding find
Replaced-step n p node nodes none r = elim (Bool-cases (node.pnum == n)) [
  | inl e ↦ rw e (λ m. ground arith)
  | inr e ↦ rw (e, e) r
]
Replaced-step n p node nodes (some l) r = elim (Bool-cases (node.pnum == n)) [
  | inl e ↦ rw e (λ m. ground arith)
  | inr e ↦ rw e (λ m. ground (arith, r m))
]

replace_node-Replaced :
    (n : ℕ) (p : Page) (nodes : List PageMapNode) → Replaced n p nodes (replace_node n p nodes)
unfolding replace_node find
replace_node-Replaced n p [] = refl
replace_node-Replaced n p (node ∷ nodes) =
    Replaced-step n p node nodes (replace_node n p nodes) (replace_node-Replaced n p nodes)

put_of_Replaced :
    (n m : ℕ) (p : Page) (nodes : List PageMapNode) (o : Option (List PageMapNode))
    → Replaced n p nodes o
    → find m (elim o [ none ↦ record { pnum = n; content = p } ∷ nodes | some l ↦ l ])
      ≡ (if m == n then some p else find m nodes)
unfolding find
put_of_Replaced n m p nodes none r = ground arith
put_of_Replaced n m p nodes (some l) r = r m

find-put_node :
    (n m : ℕ) (p : Page) (nodes : List PageMapNode)
    → find m (put_node n p nodes) ≡ (if m == n then some p else find m nodes)
unfolding put_node
find-put_node n m p nodes =
    put_of_Replaced n m p nodes (replace_node n p nodes) (replace_node-Replaced n p nodes)

abbrev pub Kept : ℕ → Option (List PageMapNode) → Type 0
Kept b none = Unit
Kept b (some l) = IsBucket b l

Kept-step :
    (b n : ℕ) (p : Page) (node : PageMapNode) (nodes : List PageMapNode)
    (rest : Option (List PageMapNode))
    → IsBucket b (node ∷ nodes)
    → Replaced n p nodes rest
    → Kept b rest
    → Kept b (
        if node.pnum == n
        then some (record node { content = p } ∷ nodes)
        else elim rest [ none ↦ none | some l ↦ some (node ∷ l) ])
unfolding IsBucket find
Kept-step b n p node nodes rest (home, fresh, more) r k = elim (Bool-cases (node.pnum == n)) [
  | inl e ↦ rw e (home, fresh, more)
  | inr e ↦ rw e (Kept_cons rest e r k)
]
  where
    Kept_cons :
        (o : Option (List PageMapNode))
        → (node.pnum == n) ≡ false
        → Replaced n p nodes o
        → Kept b o
        → Kept b (elim o [ none ↦ none | some l ↦ some (node ∷ l) ])
    Kept_cons none other r' k' = tt
    Kept_cons (some l) other r' k' = (home, ground (arith, r' node.pnum), k')

replace_node-Kept :
    (b n : ℕ) (p : Page) (nodes : List PageMapNode)
    → IsBucket b nodes
    → Kept b (replace_node n p nodes)
unfolding replace_node IsBucket
replace_node-Kept b n p [] h = tt
replace_node-Kept b n p (node ∷ nodes) h =
    Kept-step b n p node nodes (replace_node n p nodes) h (replace_node-Replaced n p nodes)
      (replace_node-Kept b n p nodes h.2)

put_of_Kept :
    (b n : ℕ) (p : Page) (nodes : List PageMapNode) (o : Option (List PageMapNode))
    → n % page_map_buckets ≡ b
    → IsBucket b nodes
    → Replaced n p nodes o
    → Kept b o
    → IsBucket b (elim o [ none ↦ record { pnum = n; content = p } ∷ nodes | some l ↦ l ])
unfolding IsBucket
put_of_Kept b n p nodes none home h r k = (home, r, h)
put_of_Kept b n p nodes (some l) home h r k = k

put_node-IsBucket :
    (b n : ℕ) (p : Page) (nodes : List PageMapNode)
    → n % page_map_buckets ≡ b
    → IsBucket b nodes
    → IsBucket b (put_node n p nodes)
unfolding put_node
put_node-IsBucket b n p nodes home h =
    put_of_Kept b n p nodes (replace_node n p nodes) home h (replace_node-Replaced n p nodes)
      (replace_node-Kept b n p nodes h)

-- The map: every bucket is one, and a page is looked up in its own.
abbrev pub IsMap : Buckets → Type 0
IsMap bs = (b : ℕ) → IsBucket b (bs b)

abbrev pub find_page : ℕ → Buckets → Option Page
find_page n bs = find n (bs (n % page_map_buckets))

pub put_page-IsMap : (n : ℕ) (p : Page) (bs : Buckets) → IsMap bs → IsMap (put_page n p bs)
unfolding put_page update
put_page-IsMap n p bs h b = elim (Bool-cases (b == n % page_map_buckets)) [
  | inl e ↦
      (let same : n % page_map_buckets ≡ b = ground (arith, e) in
        rw e (rw same (put_node-IsBucket b n p (bs b) same (h b))))
  | inr e ↦ rw e (h b)
]

-- Of a page, the map has what was put last.
pub find_page-put_page :
    (n m : ℕ) (p : Page) (bs : Buckets)
    → find_page m (put_page n p bs) ≡ (if m == n then some p else find_page m bs)
unfolding put_page update
find_page-put_page n m p bs = elim (Bool-cases (m % page_map_buckets == n % page_map_buckets)) [
  | inl e ↦
      (let same : n % page_map_buckets ≡ m % page_map_buckets = ground (arith, e) in
        rw e (rw same (find-put_node n m p (bs (m % page_map_buckets)))))
  | inr e ↦ rw e (ground (arith, e))
]
