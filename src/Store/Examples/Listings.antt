-- ===== src/Store/Examples/Listings.antt =====
-- The theorems on listings at concrete inputs: two messages, read one at a time.
use samsarix_chat_engine.Base.{true, false, ◌≡◌, refl, none, some, [], ◌∷◌, arith}
use samsarix_chat_engine.Store.Tables.{message_of}
use samsarix_chat_engine.Store.Examples.{store, store-IsSound, store-IsNamed, root, reply}
use samsarix_chat_engine.Store.Paging.{list_messages, list_pinned_messages, list_replies}
use samsarix_chat_engine.Store.Paging.Walk.{walk}
use samsarix_chat_engine.Store.Paging.Histories.{
  list_messages-walk, list_pinned_messages-walk, list_replies-walk,
}

list_messages_example :
    walk (λ before. list_messages 1 1 before store) true 3 none
    ≡ some (message_of reply ∷ message_of root ∷ [])
list_messages_example = list_messages-walk 1 1 store store-IsSound store-IsNamed refl (omega arith)

list_pinned_messages_example :
    walk (λ before. list_pinned_messages 1 1 before store) false 2 none
    ≡ some (message_of root ∷ [])
list_pinned_messages_example =
    list_pinned_messages-walk 1 1 store store-IsSound store-IsNamed refl (omega arith)

list_replies_example :
    walk (λ before. list_replies 1 10 1 before store) true 2 none ≡ some (message_of reply ∷ [])
list_replies_example =
    list_replies-walk 1 1 store root store-IsSound store-IsNamed refl refl refl (omega arith)
