-- ===== src/Drag/Answered.antt =====
-- What a request that was the last to be sent, and the reading of a time, leave.
use Prim.Native.String.{String}
use mathlib.Core.Option.{some-injective}
use photo_blog.Base.{
  ℕ, ◌≡◌, refl, sym, ap, ◌∙◌, Option, some, List, [], ◌∷◌, ◌++◌, ◌==◌, if_of_true, if_of_false,
  if-elim, length,
}
use photo_blog.Client.{Reply, Call, dispatch}
use photo_blog.Drag.{Node, data_ts, find, read_ts, apply, answer, without}
use photo_blog.Drag.Times.{dated, times}

pub answer-last :
    (Json : Type 0) (parse : String → Option Json) (encode : String → String)
    (error_of : Json → String) (album_name : String) (reply : Reply)
    (calls : List (Call Json parse encode "")) (call : Call Json parse encode "") (g : List Node)
    → answer Json parse encode error_of album_name (length calls) reply (calls ++ (call ∷ [])) g
      ≡ apply (dispatch Json parse encode "" call.cases reply) g
answer-last Json parse encode error_of album_name reply [] call g = refl
answer-last Json parse encode error_of album_name reply (c ∷ calls) call g =
    answer-last Json parse encode error_of album_name reply calls call g

pub without-last :
    (Json : Type 0) (parse : String → Option Json) (encode : String → String)
    (error_of : Json → String) (album_name : String) (calls : List (Call Json parse encode ""))
    (call : Call Json parse encode "")
    → without Json parse encode error_of album_name (length calls) (calls ++ (call ∷ [])) ≡ calls
without-last Json parse encode error_of album_name [] call = refl
without-last Json parse encode error_of album_name (c ∷ calls) call =
    ap (λ cs. c ∷ cs) (without-last Json parse encode error_of album_name calls call)

pub times-read_ts : (x : ℕ) (g : List Node) → times (read_ts x g) ≡ times g
times-read_ts x [] = refl
times-read_ts x (n ∷ g) =
    if-elim (λ r. times (r ∷ read_ts x g) ≡ times (n ∷ g)) (n.element == x)
      (record n { cached = data_ts n }) n (λ e. ap (λ k. dated n.ts ++ k) (times-read_ts x g))
      (λ e. ap (λ k. dated n.ts ++ k) (times-read_ts x g))

pub find-read_ts :
    (x : ℕ) (g : List Node) (n : Node)
    → find x g ≡ some n
    → find x (read_ts x g) ≡ some (record n { cached = data_ts n })
find-read_ts x [] n e = cc
find-read_ts x (m ∷ g) n e =
    if-elim (λ r. find x (r ∷ read_ts x g) ≡ some (record n { cached = data_ts n }))
      (m.element == x) (record m { cached = data_ts m }) m
      (λ i.
        if_of_true (some (record m { cached = data_ts m })) (find x (read_ts x g)) i
        ∙ ap (λ (y : Node). some (record y { cached = data_ts y }))
            (some-injective m n (sym (if_of_true (some m) (find x g) i) ∙ e)))
      (λ i.
        if_of_false (some m) (find x (read_ts x g)) i
        ∙ find-read_ts x g n (sym (if_of_false (some m) (find x g) i) ∙ e))
