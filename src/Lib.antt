-- ===== src/Lib.antt =====
-- The bulletin board server openptt, in parts.
--
-- The server mbbsd serves one user in a process. The processes share tables in shared memory and
-- files of records of one size. Modelled are the parts that keep these and the text of the editor:
--
-- - Users (mbbsd/cache.c, StringHash of mbbsd/toolkit.c): the hash from user names to slots. `Uhash`
--   is uhash_t; an int cell with -1 or a slot is an option, and the `int *` of the loops is a `Cell`
--   that names the head of a bucket or the link of a slot. A loop over a chain takes `rounds`, one
--   more than the slots; Users/Chains follows a chain as a list, Users/Invariant and Users/Register
--   say what a sound hash is, Users/Search is about searchuser, Users/NewUser about registration.
--   Users/Load has the loader util/uhash_loader.c, which fills the hash before the server runs; the
--   hashes that loader and server can make are `Reachable`. Users/Clean has the loop of getnewuserid
--   (mbbsd/register.c) that takes back accounts not used for long, on the
--   password file and the hash; Users/Cleaned says what it leaves.
-- - Records (mbbsd/record.c): files of records. A file is its bytes. The calls of the system that may
--   fail are answered by `Answers` or a Boolean argument. A copying loop takes one round more than
--   the file has bytes. Records/Slices cuts files into records; Records/Access, Records/Delete and
--   Records/Shift are about reading and writing, delete_record and delete_file.
-- - Ranges (delete_range of mbbsd/record.c): deleting posts from a directory. Its loop takes one round more
--   than the file has bytes. Ranges/Posts says which posts stay.
-- - Editor (mbbsd/edit.c): the list of lines with its cursor. A textline_t * is a position in the
--   list. Editor/Ansi is about columns and escape codes, Editor/Lines about the list, Editor/Wrap and
--   Editor/Insert about typing, Editor/Paste about insert_string of Editor/Strings, whose loop on a tab takes
--   `tab_rounds`; that these are enough is not proved, and its theorem is about bytes without a tab.
--   Editor/Join has join, which calls itself, on fuel; Editor/Cutting is about a line that is cut,
--   Editor/Joining about all lines.
-- - Names (mbbsd/name.c, u_namearray of mbbsd/cache.c): lists of names and completion.
-- - Text (mbbsd/stuff.c, title_body of mbbsd/record.c): the functions on strings.
-- - Homes (mbbsd/stuff.c): the paths of users and boards (Homes/Dirs), and userid_is_BM (Homes/Managers).
-- - Online (mbbsd/cache.c): the table of users on line, in shared memory. Online/Slots is about taking an
--   entry and giving it back, Online/Search about the searches.
-- - Boards (mbbsd/cache.c, mbbsd/board.c, mbbsd/stuff.c): board numbers and the right to post, which
--   Boards/Posting is about.
-- - Terminal (mbbsd/io.c, mbbsd/screen.c): the output buffer (Terminal/Buffer), relative moves of the
--   cursor (Terminal/Moves) and highlighting (Terminal/Highlight).
-- - Screen (mbbsd/screen.c): the picture of the screen, a ring of lines that the drawing functions change,
--   and Screen/Redraw, which compares it with what the terminal has and writes commands of Terminal.
--   Screen/Display is a terminal that obeys them, with one column for each byte; Screen/Picture says what
--   picture the ring stands for, Screen/Steps and Screen/Shown are about redoscr, Screen/Lines and
--   Screen/Drawing about outch, Screen/Clearing about clrtoeol and scrolling. Screen/Colours is the filter outc, which
--   Screen/Filtering is about. The buffers of
--   static variables have their sizes, and a write behind them is lost in the model.
-- - Input (mbbsd/io.c): Input/Keys is about igetkey, whose sequences have at most four bytes, Input/Line,
--   Input/Editing and Input/History about the prompt oldgetdata, without what it draws. Keys are a list.
-- - Brc (mbbsd/board.c): the times of the posts that a user has read. Brc/Times is about the list of a
--   board, Brc/Codec, Brc/Saved and Brc/Items about the records of the file .boardrc, Brc/File about going from board
--   to board. The
--   loops over a file take one round more than it has bytes.
-- - Reading (mbbsd/read.c): where a user is in a list of posts; Reading/Keeps is about the places that are
--   remembered, Reading/Cursor about moving.
-- - Votes (mbbsd/vote.c): Votes/Stripping is about strip_ansi, Votes/Counting about counting votes.
-- - Friends (mbbsd/friend.c, belong of mbbsd/stuff.c): the files with names of friends and of others.
--   A file is its bytes, read line by line as fgets does (Prelude/Stdio). Friends/Lines has the lemmas on
--   lines, Friends/Adding is about friend_add, Friends/Deleting about friend_delete, Friends/Loading about
--   what friend_load puts into the entry of a user.
-- - Talk (mbbsd/talk.c, count_ulist of mbbsd/cache.c): who is a friend of whom and who sees whom, which
--   Talk/Seeing is about. Talk/Paging has the tests of my_talk, up to the request that it sends.
--   Talk/Pickup has the list of users that pickup_user draws; Talk/Picking, Talk/Order and Talk/Searching
--   are about its entries, its order and the search in it.
-- - Menu (mbbsd/menu.c): the cursor of domenu. What the functions of the items return is a record. A
--   search for an item takes at most one round for each item; Menu/Cursor is about these searches,
--   Menu/Turns about a turn of the loop.
-- - Expire (util/expire.c): which posts are kept in a directory. Expire/Keeping and Expire/Bounds are about
--   the order and the number of the posts that stay.
-- - Stats (util/poststat.c): how often a title was posted. Stats/Counting is about the hash of titles,
--   Stats/Placing and Stats/Top about the table of the most frequent.
-- - Posts (mbbsd/bbs.c): the marks on posts, in the directory of a board, in the result of a search and in
--   the digest, which Posts/Marks is about. A directory is the list of its headers.
-- - Prelude: numbers, lists and bytes that the parts share. Examples: runs and inputs.
--
-- A C string is the list of its bytes before the closing zero; buffers that a string has to fit are
-- not modelled, except the lines of the editor. An int is a natural number where the code keeps it so,
-- and the hash wraps at 32 bits; unsigned long is taken to have 32 bits, as the code needs.
--
-- Not modelled: dialogues and most drawing, sockets, processes, locks between processes, the news
-- exchange of innbbsd and the programs of util not named above, which mostly pass data between files and
-- sockets; dbz.c and rfc931.c of innbbsd, which are other projects'.
pub mod Boards
pub mod Brc
pub mod Editor
pub mod Examples
pub mod Expire
pub mod Friends
pub mod Homes
pub mod Input
pub mod Menu
pub mod Names
pub mod Online
pub mod Posts
pub mod Prelude
pub mod Ranges
pub mod Reading
pub mod Records
pub mod Screen
pub mod Stats
pub mod Talk
pub mod Terminal
pub mod Text
pub mod Users
pub mod Votes
